-- ===== src/Plugins/Startup/EdgeCounts.antt =====
-- How many edges of the dependency graph lead to a plugin.
use authsentinel.Base.{
  ◌≡◌, refl, ap, subst, arith, ◌≤◌, ℕ, ◌+◌, ◌*◌, ◌⊎◌, inl, inr, String, List, [], ◌∷◌, ◌++◌, length,
  eq_iff, ◌==◌, if◌then◌else◌, Bool-cases,
}
use authsentinel.Plugins.{slice_at, append_at}
use authsentinel.Plugins.Registered.{Has, slice_at-append_at}
use authsentinel.Plugins.Startup.{Edges, add_dependents}

-- No text occurs twice.
abbrev pub Distinct : List String → Type 0
Distinct [] = Unit
Distinct (x ∷ xs) = (Has x xs → ⊥) × Distinct xs

abbrev pub hit : String → String → ℕ
hit x j = if x == j then 1 else 0

unfoldable pub occurs : String → List String → ℕ
occurs j [] = 0
occurs j (x ∷ xs) = hit x j + occurs j xs

-- The edges from the plugins of a list to a plugin
unfoldable pub edges_from : Edges → List String → String → ℕ
unfolding occurs slice_at
edges_from m [] j = 0
edges_from m (p ∷ ps) j = occurs j (slice_at p m) + edges_from m ps j

pub occurs-append :
    (j : String) (xs ys : List String) → occurs j (xs ++ ys) ≡ occurs j xs + occurs j ys
unfolding occurs
occurs-append j [] ys = omega arith
occurs-append j (x ∷ xs) ys = omega (arith, occurs-append j xs ys)

edges_from-append :
    (m : Edges) (ps qs : List String) (j : String)
    → edges_from m (ps ++ qs) j ≡ edges_from m ps j + edges_from m qs j
unfolding edges_from
edges_from-append m [] qs j = omega arith
edges_from-append m (p ∷ ps) qs j = omega (arith, edges_from-append m ps qs j)

pub edges_from-snoc :
    (m : Edges) (ps : List String) (p j : String)
    → edges_from m (ps ++ (p ∷ [])) j ≡ occurs j (slice_at p m) + edges_from m ps j
unfolding edges_from
edges_from-snoc m ps p j = omega (arith, edges_from-append m ps (p ∷ []) j)

pub occurs-Has : (j : String) (xs : List String) → Has j xs → 1 ≤ occurs j xs
unfolding occurs
occurs-Has j [] h = absurd h
occurs-Has j (x ∷ xs) (inl e) = ground (arith, eq_iff x j, e)
occurs-Has j (x ∷ xs) (inr h) = omega (arith, occurs-Has j xs h)

pub Has-dec : (j : String) (xs : List String) → Has j xs ⊎ (Has j xs → ⊥)
Has-dec j [] = inr (λ h. h)
Has-dec j (x ∷ xs) = elim (Bool-cases (j == x)) [
  | inl same ↦ inl (inl ((eq_iff j x).0 same))
  | inr other ↦ elim (Has-dec j xs) [
    | inl h ↦ inl (inr h)
    | inr none ↦ inr λ h. elim h [ inl e ↦ ground (arith, eq_iff j x, e, other) | inr k ↦ none k ]
  ]
]

-- A new edge to `id` from `p` is one more from a list without repetitions at most.
occurs-append_at :
    (p id x j : String) (m : Edges)
    → occurs j (slice_at x (append_at p id m))
      ≡ (if p == x then hit id j else 0) + occurs j (slice_at x m)
unfolding occurs
occurs-append_at p id x j m = elim (Bool-cases (p == x)) [
  | inl same ↦
      let e : p ≡ x = (eq_iff p x).0 same in
      rw (slice_at-append_at p x id m, same)
        (omega
          (arith, occurs-append j (slice_at p m) (id ∷ []), ap (λ q. occurs j (slice_at q m)) e))
  | inr other ↦ rw (slice_at-append_at p x id m, other) (omega arith)
]

edges_from-absent :
    (p id j : String) (m : Edges) (ps : List String)
    → (Has p ps → ⊥)
    → edges_from (append_at p id m) ps j ≡ edges_from m ps j
unfolding edges_from
edges_from-absent p id j m [] h = refl
edges_from-absent p id j m (x ∷ ps) h = elim (Bool-cases (p == x)) [
  | inl same ↦ absurd (h (inl ((eq_iff p x).0 same)))
  | inr other ↦
      ground
        (arith, occurs-append_at p id x j m, other, edges_from-absent p id j m ps (λ k. h (inr k)))
]

edges_from-append_at :
    (p id j : String) (m : Edges) (ps : List String)
    → Distinct ps
    → edges_from (append_at p id m) ps j ≤ hit id j + edges_from m ps j
unfolding edges_from
edges_from-append_at p id j m [] d = omega arith
edges_from-append_at p id j m (x ∷ ps) d = elim (Bool-cases (p == x)) [
  | inl same ↦
      let e : p ≡ x = (eq_iff p x).0 same in
      let absent = edges_from-absent p id j m ps (λ k. d.0 (subst (λ q. Has q ps) e k)) in
      ground (arith, occurs-append_at p id x j m, same, absent)
  | inr other ↦
      ground (arith, occurs-append_at p id x j m, other, edges_from-append_at p id j m ps d.1)
]

pub add_dependents-edges :
    (id j : String) (providers : List String) (m : Edges) (ps : List String)
    → Distinct ps
    → edges_from (add_dependents id providers m) ps j
      ≤ hit id j * length providers + edges_from m ps j
unfolding add_dependents
add_dependents-edges id j [] m ps d = omega arith
add_dependents-edges id j (p ∷ providers) m ps d = grind (
  arith,
  add_dependents-edges id j providers (append_at p id m) ps d,
  edges_from-append_at p id j m ps d,
)

-- The providers of the capabilities, and how many of them all entries for a plugin need
unfoldable pub needed_by : Edges → List String → ℕ
unfolding slice_at
needed_by providers [] = 0
needed_by providers (cap ∷ caps) = length (slice_at cap providers) + needed_by providers caps

unfoldable pub needed : Edges → Edges → String → ℕ
unfolding needed_by
needed providers [] j = 0
needed providers ((id, caps) ∷ rest) j =
    hit id j * needed_by providers caps + needed providers rest j
