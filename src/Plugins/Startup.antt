-- ===== src/Plugins/Startup.antt =====
-- BuildDependencyGraph and StartupOrder of pkg/pluginregistry/registry.go. Kahn's algorithm runs on
-- fuel; a graph for which the fuel is used up has no result.
pub mod Terminates
pub mod EdgeCounts
pub mod Dependents
pub mod Degrees
pub mod Release
pub mod Order
pub mod Providers
use authsentinel.Base.{
  ℕ, zero, suc, Bool, true, false, String, List, [], ◌∷◌, ◌++◌, Option, none, some, Result, ok, err,
  Dict, ℤ, pos, negsuc, lookup, insert, length, is_empty, add64, eqb, if◌then◌else◌,
}
use authsentinel.Plugins.{Registry, Registration, slice_at, append_at}
use authsentinel.Text.{◌+s◌}

abbrev pub Edges : Type 0
Edges = Dict (List String)

-- The plugin `id` depends on each of the providers.
unfoldable pub add_dependents : String → List String → Edges → Edges
unfolding append_at
add_dependents id [] m = m
add_dependents id (p ∷ ps) m = add_dependents id ps (append_at p id m)

unfoldable pub depend : Edges → String → List String → Edges → Result (Unit {0}) × Edges
unfolding slice_at
depend providers id [] m = (ok tt, m)
depend providers id (cap ∷ caps) m =
    let found = slice_at cap providers in
    let rest = depend providers id caps (add_dependents id found m) in
    if is_empty found
    then (
      err (
          "pluginregistry: plugin " +s id +s " depends on capability " +s cap
          +s " with no providers"),
      m,
    )
    else rest

abbrev pub next :
    (Edges → Result (Unit {0}) × Edges) → Result (Unit {0}) × Edges → Result (Unit {0}) × Edges
next f (ok _, m) = f m
next f (err e, m) = (err e, m)

-- The dependents found before a plugin without a provider stay.
unfoldable pub depend_all : Edges → Edges → Edges → Result (Unit {0}) × Edges
unfolding depend
depend_all providers [] m = (ok tt, m)
depend_all providers ((id, caps) ∷ rest) m =
    next (depend_all providers rest) (depend providers id caps m)

abbrev degree : Option ℤ → ℤ
degree none = pos 0
degree (some n) = n

-- inDegree[id]: 0 where the key is missing
unfoldable pub degree_at : String → Dict ℤ → ℤ
unfolding lookup
degree_at id m = degree (lookup id m)

unfoldable pub zero_degrees : Dict Registration → Dict ℤ
unfolding insert
zero_degrees [] = []
zero_degrees (entry ∷ rest) = insert entry.0 (pos 0) (zero_degrees rest)

unfoldable pub count_providers : Edges → String → List String → Dict ℤ → Dict ℤ
unfolding degree_at insert slice_at
count_providers providers id [] m = m
count_providers providers id (cap ∷ caps) m =
    count_providers providers id caps
      (insert id (add64 (degree_at id m) (pos (length (slice_at cap providers)))) m)

unfoldable pub count_all : Edges → Edges → Dict ℤ → Dict ℤ
unfolding count_providers
count_all providers [] m = m
count_all providers ((id, caps) ∷ rest) m =
    count_all providers rest (count_providers providers id caps m)

unfoldable pub in_degree : Registry → Dict ℤ
unfolding count_all zero_degrees
in_degree r = count_all r.by_capability r.dependencies (zero_degrees r.by_id)

abbrev pub is_zero : ℤ → Bool
is_zero (pos n) = eqb n 0
is_zero (negsuc n) = false

unfoldable pub ready : Dict ℤ → List String
ready [] = []
ready ((id, n) ∷ rest) = let later = ready rest in if is_zero n then id ∷ later else later

-- n - 1; no degree comes near the least int
abbrev pub decrement : ℤ → ℤ
decrement (pos zero) = negsuc 0
decrement (pos (suc n)) = pos n
decrement (negsuc n) = negsuc (suc n)

-- The dependents of a started plugin wait for one plugin less.
unfoldable pub release_dependents : List String → List String → Dict ℤ → List String × Dict ℤ
unfolding degree_at insert
release_dependents [] queue m = (queue, m)
release_dependents (id ∷ ids) queue m =
    let left = decrement (degree_at id m) in
    release_dependents ids (if is_zero left then queue ++ (id ∷ []) else queue) (insert id left m)

unfoldable pub kahn : ℕ → Edges → List String → Dict ℤ → List String → Option (List String)
unfolding release_dependents slice_at
kahn fuel dependents [] m order = some order
kahn zero dependents (id ∷ queue) m order = none
kahn (suc fuel) dependents (id ∷ queue) m order =
    let (queue, m) = release_dependents (slice_at id dependents) queue m in
    kahn fuel dependents queue m (order ++ (id ∷ []))

abbrev pub ordered : Registry → Option (List String) → Option (Result (Unit {0}) × Registry)
ordered r none = none
ordered r (some order) = some (
    if eqb (length order) (length r.by_id)
    then (ok tt, record r { sorted_startup = order })
    else (err "pluginregistry: dependency cycle", r))

abbrev pub sorted : Registry → Result (Unit {0}) × Edges → Option (Result (Unit {0}) × Registry)
sorted r (err e, m) = some (err e, record r { dependents = m })
sorted r (ok _, m) =
    ordered (record r { dependents = m })
      (kahn (length (in_degree r)) m (ready (in_degree r)) (in_degree r) [])

unfoldable pub build_dependency_graph : Registry → Option (Result (Unit {0}) × Registry)
unfolding depend_all kahn in_degree ready
build_dependency_graph r = sorted r (depend_all r.by_capability r.dependencies r.dependents)

abbrev pub startup_order : Registry → List String
startup_order r = r.sorted_startup
