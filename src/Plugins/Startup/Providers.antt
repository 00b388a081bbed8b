-- ===== src/Plugins/Startup/Providers.antt =====
-- A startup order has every plugin behind the providers of the capabilities that it depends on.
use authsentinel.Base.{
  ◌≡◌, refl, ap, ◌∙◌, arith, ◌≤◌, ◌<◌, inl, inr, String, List, [], ◌∷◌, Option, none, some, Result,
  ok, err, length, eqb, Bool-cases, word_half,
}
use authsentinel.Plugins.{Registry, slice_at}
use authsentinel.Plugins.Registered.{Has}
use authsentinel.Plugins.Startup.{
  Edges, in_degree, ready, kahn, depend_all, ordered, sorted, build_dependency_graph,
}
use authsentinel.Plugins.Startup.Degrees.{in_degree-needed, in_degree-ready}
use authsentinel.Plugins.Startup.Dependents.{depend_all-edges, depend_all-Has}
use authsentinel.Plugins.Startup.EdgeCounts.{Distinct, edges_from, needed}
use authsentinel.Plugins.Startup.Order.{kahn-InOrder}
use authsentinel.Plugins.Startup.Release.{State, InOrder}

-- Each plugin of a list stands behind all providers of what it depends on, in `seen` or in the list.
abbrev pub BehindProviders : Registry → List String → List String → Type 0
BehindProviders r seen [] = Unit
BehindProviders r seen (x ∷ xs) =
    ((capability p : String)
      → Has capability (slice_at x r.dependencies)
      → Has p (slice_at capability r.by_capability)
      → Has p seen)
    × BehindProviders r (x ∷ seen) xs

InOrder-BehindProviders :
    (r : Registry) (m : Edges) (seen xs : List String)
    → depend_all r.by_capability r.dependencies r.dependents ≡ (ok tt, m)
    → InOrder m seen xs
    → BehindProviders r seen xs
InOrder-BehindProviders r m seen [] h o = tt
InOrder-BehindProviders r m seen (x ∷ xs) h o = (
  (λ capability p needs provides. o.0 p (
      depend_all-Has r.by_capability r.dependencies x capability p r.dependents m h needs
        provides)),
  InOrder-BehindProviders r m (x ∷ seen) xs h o.1,
)

edges_from-none : (ps : List String) (j : String) → edges_from [] ps j ≡ 0
unfolding edges_from
edges_from-none [] j = refl
edges_from-none (p ∷ ps) j = omega (arith, edges_from-none ps j)

ordered-ok :
    (r r' : Registry) (o : Option (List String))
    → ordered r o ≡ some (ok tt, r')
    → o ≡ some r'.sorted_startup
ordered-ok r r' none h = ground (arith, h)
ordered-ok r r' (some order) h = elim (Bool-cases (eqb (length order) (length r.by_id))) [
  | inl full ↦ ground (arith, full, h)
  | inr part ↦ ground (arith, part, h)
]

sorted-ok :
    (r r' : Registry) (answer : Result (Unit {0}) × Edges)
    → sorted r answer ≡ some (ok tt, r')
    → (answer ≡ (ok tt, answer.1))
      × (kahn (length (in_degree r)) answer.1 (ready (in_degree r)) (in_degree r) []
          ≡ some r'.sorted_startup)
sorted-ok r r' (err e, m) h = ground (arith, h)
sorted-ok r r' (ok tt, m) h = (refl, ordered-ok (record r { dependents = m }) r' _ h)

-- When BuildDependencyGraph succeeds for the first time, and no plugin depends on 2 ^ 63 or more
-- providers, then the startup order has no plugin twice, and every plugin in it stands behind all
-- providers of each capability that it depends on.
pub build_dependency_graph-BehindProviders :
    (r r' : Registry)
    → r.dependents ≡ []
    → ((j : String) → needed r.by_capability r.dependencies j < word_half)
    → build_dependency_graph r ≡ some (ok tt, r')
    → Distinct r'.sorted_startup × BehindProviders r [] r'.sorted_startup
unfolding build_dependency_graph edges_from
build_dependency_graph-BehindProviders r r' fresh small h =
    let answer = depend_all r.by_capability r.dependencies r.dependents in
    let (good, found) = sorted-ok r r' answer h in
    let total = needed r.by_capability r.dependencies in
    let bound : (ps : List String) (j : String) → Distinct ps → edges_from answer.1 ps j ≤ total j =
      λ ps j d. omega (
        arith,
        depend_all-edges r.by_capability r.dependencies j r.dependents answer.1 ps d good,
        ap (λ m. edges_from m ps j) fresh ∙ edges_from-none ps j,
      ) in
    let degrees = in_degree r in
    let (distinct, zero_degrees) = in_degree-ready r in
    let start : State answer.1 total [] (ready degrees) degrees (edges_from answer.1 []) = record {
      waits = λ j. (total j, in_degree-needed r small j, omega arith);
      distinct = distinct;
      ready_now = zero_degrees;
    } in
    let (order, once) =
      kahn-InOrder answer.1 total bound (length degrees) [] (ready degrees) r'.sorted_startup
        degrees start tt found in
    (once, InOrder-BehindProviders r answer.1 [] r'.sorted_startup good order)
