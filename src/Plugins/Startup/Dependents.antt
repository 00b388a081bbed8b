-- ===== src/Plugins/Startup/Dependents.antt =====
-- The dependents that BuildDependencyGraph collects: no more than are counted, and no edge is missing.
use authsentinel.Base.{
  ◌≡◌, refl, sym, ap, subst, arith, ◌≤◌, ◌+◌, ◌*◌, inl, inr, String, List, [], ◌∷◌, Result, ok, err,
  lookup, is_empty, eq_iff, ◌==◌, Bool-cases,
}
use authsentinel.Plugins.{slice_at, append_at}
use authsentinel.Plugins.Registered.{Has, Has-append_left, Has-append_last, slice_at-append_at}
use authsentinel.Plugins.Startup.{Edges, add_dependents, depend, depend_all, next}
use authsentinel.Plugins.Startup.EdgeCounts.{
  Distinct, hit, edges_from, add_dependents-edges, needed_by, needed,
}

-- All edges of one map stand in another.
abbrev Within : Edges → Edges → Type 0
Within m m' = (p j : String) → Has j (slice_at p m) → Has j (slice_at p m')

append_at-Within : (p id : String) (m : Edges) → Within m (append_at p id m)
append_at-Within p id m q j h = elim (Bool-cases (p == q)) [
  | inl same ↦
      rw (slice_at-append_at p q id m, same)
        (Has-append_left j (slice_at p m) (id ∷ [])
          (subst (λ x. Has j (slice_at x m)) (sym ((eq_iff p q).0 same)) h))
  | inr other ↦ rw (slice_at-append_at p q id m, other) h
]

append_at-Has : (p id : String) (m : Edges) → Has id (slice_at p (append_at p id m))
append_at-Has p id m =
    rw (slice_at-append_at p p id m, (eq_iff p p).1 refl) (Has-append_last id (slice_at p m))

add_dependents-Within :
    (id : String) (providers : List String) (m : Edges) → Within m (add_dependents id providers m)
unfolding add_dependents
add_dependents-Within id [] m q j h = h
add_dependents-Within id (p ∷ providers) m q j h =
    add_dependents-Within id providers (append_at p id m) q j (append_at-Within p id m q j h)

add_dependents-Has :
    (id p : String) (providers : List String) (m : Edges)
    → Has p providers
    → Has id (slice_at p (add_dependents id providers m))
unfolding add_dependents
add_dependents-Has id p [] m h = absurd h
add_dependents-Has id p (x ∷ providers) m (inl e) =
    rw e (add_dependents-Within id providers (append_at x id m) x id (append_at-Has x id m))
add_dependents-Has id p (x ∷ providers) m (inr h) =
    add_dependents-Has id p providers (append_at x id m) h

module _ (providers : Edges) where
  -- What a successful step with the capabilities of a plugin has done
  depend-edges :
      (id j : String) (caps : List String) (m m' : Edges) (ps : List String)
      → Distinct ps
      → depend providers id caps m ≡ (ok tt, m')
      → edges_from m' ps j ≤ hit id j * needed_by providers caps + edges_from m ps j
  unfolding depend needed_by
  depend-edges id j [] m m' ps d h =
      let same : m ≡ m' = ap (λ r. r.1) h in rw (sym same) (omega arith)
  depend-edges id j (cap ∷ caps) m m' ps d h =
      elim (Bool-cases (is_empty (slice_at cap providers))) [
        | inl empty ↦ ground (arith, empty, h)
        | inr given ↦
            let m1 = add_dependents id (slice_at cap providers) m in
            let rest : depend providers id caps m1 ≡ (ok tt, m') = ground (arith, given, h) in
            grind (
              arith,
              depend-edges id j caps m1 m' ps d rest,
              add_dependents-edges id j (slice_at cap providers) m ps d,
            )
      ]

  depend-Within :
      (id : String) (caps : List String) (m m' : Edges)
      → depend providers id caps m ≡ (ok tt, m')
      → Within m m'
  unfolding depend
  depend-Within id [] m m' h p j k = subst (λ x. Has j (slice_at p x)) (ap (λ r. r.1) h) k
  depend-Within id (cap ∷ caps) m m' h p j k =
      elim (Bool-cases (is_empty (slice_at cap providers))) [
        | inl empty ↦ ground (arith, empty, h)
        | inr given ↦
            depend-Within id caps (add_dependents id (slice_at cap providers) m) m'
              (ground (arith, given, h)) p j
              (add_dependents-Within id (slice_at cap providers) m p j k)
      ]

  depend-Has :
      (id cap p : String) (caps : List String) (m m' : Edges)
      → depend providers id caps m ≡ (ok tt, m')
      → Has cap caps
      → Has p (slice_at cap providers)
      → Has id (slice_at p m')
  unfolding depend
  depend-Has id cap p [] m m' h has there = absurd has
  depend-Has id cap p (c ∷ caps) m m' h has there =
      elim (Bool-cases (is_empty (slice_at c providers))) [
        | inl empty ↦ ground (arith, empty, h)
        | inr given ↦
            let m1 = add_dependents id (slice_at c providers) m in
            let rest : depend providers id caps m1 ≡ (ok tt, m') = ground (arith, given, h) in
            elim has [
              | inl e ↦ depend-Within id caps m1 m' rest p id (
                  add_dependents-Has id p (slice_at c providers) m
                    (subst (λ x. Has p (slice_at x providers)) e there))
              | inr later ↦ depend-Has id cap p caps m1 m' rest later there
            ]
      ]

  next-ok :
      (f : Edges → Result (Unit {0}) × Edges) (r : Result (Unit {0}) × Edges) (m' : Edges)
      → next f r ≡ (ok tt, m')
      → (r.0 ≡ ok tt) × (f r.1 ≡ (ok tt, m'))
  next-ok f (ok tt, m) m' h = (refl, h)
  next-ok f (err e, m) m' h = ground (arith, h)

  pub depend_all-edges :
      (deps : Edges) (j : String) (m m' : Edges) (ps : List String)
      → Distinct ps
      → depend_all providers deps m ≡ (ok tt, m')
      → edges_from m' ps j ≤ needed providers deps j + edges_from m ps j
  unfolding depend_all needed
  depend_all-edges [] j m m' ps d h =
      let same : m ≡ m' = ap (λ r. r.1) h in rw (sym same) (omega arith)
  depend_all-edges ((id, caps) ∷ rest) j m m' ps d h =
      let step = depend providers id caps m in
      let (good, later) = next-ok (depend_all providers rest) step m' h in
      omega (
        arith,
        depend_all-edges rest j step.1 m' ps d later,
        depend-edges id j caps m step.1 ps d (ap (λ r. (r, step.1)) good),
      )

  depend_all-Within :
      (deps : Edges) (m m' : Edges) → depend_all providers deps m ≡ (ok tt, m') → Within m m'
  unfolding depend_all
  depend_all-Within [] m m' h p j k = subst (λ x. Has j (slice_at p x)) (ap (λ r. r.1) h) k
  depend_all-Within ((id, caps) ∷ rest) m m' h p j k =
      let step = depend providers id caps m in
      let (good, later) = next-ok (depend_all providers rest) step m' h in
      depend_all-Within rest step.1 m' later p j
        (depend-Within id caps m step.1 (ap (λ r. (r, step.1)) good) p j k)

  -- A plugin that needs a capability is among the dependents of each of its providers.
  pub depend_all-Has :
      (deps : Edges) (id cap p : String) (m m' : Edges)
      → depend_all providers deps m ≡ (ok tt, m')
      → Has cap (slice_at id deps)
      → Has p (slice_at cap providers)
      → Has id (slice_at p m')
  unfolding depend_all slice_at lookup
  depend_all-Has [] id cap p m m' h has there = absurd has
  depend_all-Has ((x, caps) ∷ rest) id cap p m m' h has there =
      let step = depend providers x caps m in
      let (good, later) = next-ok (depend_all providers rest) step m' h in
      elim (Bool-cases (x == id)) [
        | inl same ↦
            let e : x ≡ id = (eq_iff x id).0 same in
            depend_all-Within rest step.1 m' later p id (
              subst (λ i. Has i (slice_at p step.1)) e
                (depend-Has x cap p caps m step.1 (ap (λ r. (r, step.1)) good) (rw same at has)
                  there))
        | inr other ↦ depend_all-Has rest id cap p step.1 m' later (rw other at has) there
      ]
