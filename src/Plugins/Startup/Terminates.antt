-- ===== src/Plugins/Startup/Terminates.antt =====
-- Kahn's algorithm ends within as many steps as there are plugins.
use authsentinel.Base.{
  ◌≡◌, refl, ℕ, zero, suc, ◌+◌, ◌≤◌, Bool, true, false, String, List, [], ◌∷◌, ◌++◌, Option, some,
  Result, ok, err, Dict, ℤ, pos, negsuc, eqb→eq, lookup, insert, length, length-append, inl, inr,
  ◌⊎◌, Bool-cases, arith, eqb, if◌then◌else◌,
}
use authsentinel.Plugins.{Registry, slice_at}
use authsentinel.Plugins.Startup.{
  degree_at, in_degree, is_zero, ready, decrement, release_dependents, kahn, depend_all,
  build_dependency_graph, ordered, sorted,
}

-- 1 for a plugin that waits for others
abbrev waits : ℤ → ℕ
waits (pos zero) = 0
waits (pos (suc n)) = 1
waits (negsuc n) = 0

waiting : Dict ℤ → ℕ
waiting [] = 0
waiting ((_, n) ∷ rest) = waits n + waiting rest

waiting-insert :
    (id : String) (n : ℤ) (m : Dict ℤ)
    → waiting (insert id n m) + waits (degree_at id m) ≡ waiting m + waits n
unfolding waiting insert degree_at lookup
waiting-insert id n [] = omega arith
waiting-insert id n ((name, old) ∷ rest) = ground (arith, waiting-insert id n rest)

joins : (n : ℤ) → (if is_zero (decrement n) then 1 else 0) + waits (decrement n) ≤ waits n
joins n = ground arith

length-joined :
    (b : Bool) (id : String) (queue : List String)
    → length (if b then queue ++ (id ∷ []) else queue) ≡ length queue + (if b then 1 else 0)
length-joined true id queue = length-append queue (id ∷ [])
length-joined false id queue = omega arith

release_dependents-waiting :
    (ids queue : List String) (m : Dict ℤ)
    → length (release_dependents ids queue m).0 + waiting (release_dependents ids queue m).1
      ≤ length queue + waiting m
unfolding release_dependents
release_dependents-waiting [] queue m = omega arith
release_dependents-waiting (id ∷ ids) queue m =
    let left = decrement (degree_at id m) in
    omega (
      arith,
      release_dependents-waiting ids (if is_zero left then queue ++ (id ∷ []) else queue)
          (insert id left m),
      length-joined (is_zero left) id queue,
      waiting-insert id left m,
      joins (degree_at id m),
    )

kahn-ends :
    (fuel : ℕ) (dependents : Dict (List String)) (queue : List String) (m : Dict ℤ)
    (order : List String)
    → length queue + waiting m ≤ fuel
    → (result : List String) × (kahn fuel dependents queue m order ≡ some result)
unfolding kahn
kahn-ends fuel dependents [] m order h = (order, refl)
kahn-ends zero dependents (id ∷ queue) m order h = absurd (omega (arith, h))
kahn-ends (suc fuel) dependents (id ∷ queue) m order h =
    let (queue', m') = release_dependents (slice_at id dependents) queue m in
    kahn-ends fuel dependents queue' m' (order ++ (id ∷ []))
      (omega (arith, h, release_dependents-waiting (slice_at id dependents) queue m))

ready-waiting : (m : Dict ℤ) → length (ready m) + waiting m ≤ length m
unfolding ready waiting
ready-waiting [] = omega arith
ready-waiting ((id, n) ∷ rest) = ground (arith, ready-waiting rest)

-- A startup order has an entry for every plugin; an error leaves the order as it was.
abbrev pub Built : Registry → Result (Unit {0}) × Registry → Type 0
Built r out =
    ((out.0 ≡ ok tt) × (length out.1.sorted_startup ≡ length r.by_id))
    ⊎ ((e : String) × (out.0 ≡ err e) × (out.1.sorted_startup ≡ r.sorted_startup))

ordered-Built :
    (r : Registry) (m : Dict (List String)) (o : Option (List String)) (order : List String)
    → o ≡ some order
    → (out : Result (Unit {0}) × Registry) × (ordered (record r { dependents = m }) o ≡ some out)
      × Built r out
ordered-Built r m o order h = elim (Bool-cases (eqb (length order) (length r.by_id))) [
  | inl full ↦ (
    (ok tt, record r { dependents = m; sorted_startup = order }),
    ground (arith, h, full),
    inl (refl, eqb→eq (length order) (length r.by_id) full),
  )
  | inr part ↦ (
    (err "pluginregistry: dependency cycle", record r { dependents = m }),
    ground (arith, h, part),
    inr ("pluginregistry: dependency cycle", refl, refl),
  )
]

sorted-Built :
    (r : Registry) (answer : Result (Unit {0}) × Dict (List String))
    → (out : Result (Unit {0}) × Registry) × (sorted r answer ≡ some out) × Built r out
sorted-Built r (err e, m) = ((err e, record r { dependents = m }), refl, inr (e, refl, refl))
sorted-Built r (ok u, m) =
    let degrees = in_degree r in
    let (order, ends) =
      kahn-ends (length degrees) m (ready degrees) degrees [] (ready-waiting degrees) in
    ordered-Built r m (kahn (length degrees) m (ready degrees) degrees []) order ends

-- BuildDependencyGraph ends for every registry, within as many steps of Kahn's algorithm as there are
-- plugins with a degree: it either succeeds with a startup order that has as many entries as there are
-- plugins, or fails and leaves the order as it was.
pub build_dependency_graph-ends :
    (r : Registry)
    → (out : Result (Unit {0}) × Registry) × (build_dependency_graph r ≡ some out) × Built r out
unfolding build_dependency_graph
build_dependency_graph-ends r =
    sorted-Built r (depend_all r.by_capability r.dependencies r.dependents)
