-- ===== src/Plugins/Startup/Order.antt =====
-- The startup order that BuildDependencyGraph finds.
use mathlib.Core.List.{append_assoc}
use authsentinel.Base.{
  ◌≡◌, refl, sym, ap, ◌∙◌, subst, arith, ◌≤◌, ℕ, zero, suc, ◌+◌, ◌-◌, inl, inr, String, List, [],
  ◌∷◌, ◌++◌, some, Dict, ℤ, pos, insert, eq_iff, if◌then◌else◌,
}
use authsentinel.Plugins.{slice_at}
use authsentinel.Plugins.Registered.{Has}
use authsentinel.Plugins.Startup.{Edges, degree_at, is_zero, decrement, release_dependents, kahn}
use authsentinel.Plugins.Startup.EdgeCounts.{
  Distinct, hit, occurs, occurs-Has, edges_from, edges_from-snoc, Has-dec,
}
use authsentinel.Plugins.Startup.Release.{
  State, State-counted, queued, Distinct-left, Has-middle, InOrder, InOrder-snoc,
}

module _ (m : Edges) (total : String → ℕ) where
  -- Releasing the dependents of a plugin counts its edges.
  release_dependents-State :
      (ids order queue : List String) (degrees : Dict ℤ) (c : String → ℕ)
      → State m total order queue degrees c
      → ((j : String) → c j + occurs j ids ≤ total j)
      → State m total order
          (release_dependents ids queue degrees).0
          (release_dependents ids queue degrees).1
          (λ j. occurs j ids + c j)
  unfolding release_dependents occurs
  release_dependents-State [] order queue degrees c s room =
      State-counted m total order queue degrees c _ (λ j. omega arith) s
  release_dependents-State (id ∷ ids) order queue degrees c s room =
      let (n, d, sum) = s.waits id in
      let one : hit id id ≡ 1 = ground (arith, eq_iff id id) in
      let e : degree_at id degrees ≡ pos (suc (n - 1)) =
        d ∙ ap pos (omega (arith, one, sum, room id)) in
      let sum' : suc (n - 1) + c id ≡ total id = omega (arith, one, sum, room id) in
      let queue' = if is_zero (pos (n - 1)) then queue ++ (id ∷ []) else queue in
      subst
        (λ degree.
          let queue' = if is_zero (decrement degree) then queue ++ (id ∷ []) else queue in
          let next = release_dependents ids queue' (insert id (decrement degree) degrees) in
          State m total order next.0 next.1 (λ j. hit id j + occurs j ids + c j))
        (sym e)
        (State-counted m total order _ _ _ _ (λ j. omega arith)
          (release_dependents-State ids order queue' (insert id (pos (n - 1)) degrees)
            (λ j. hit id j + c j)
            (queued m total order queue degrees c s id (n - 1) e sum' (is_zero (pos (n - 1))) refl)
            (λ j. omega (arith, room j))))

module _ (m : Edges) (total : String → ℕ)
    (bound : (ps : List String) (j : String) → Distinct ps → edges_from m ps j ≤ total j) where
  providers-done :
      (order queue : List String) (degrees : Dict ℤ) (id : String)
      → State m total order (id ∷ queue) degrees (edges_from m order)
      → Has id (order ++ (id ∷ queue))
      → (p : String) → Has id (slice_at p m)
      → Has p order
  unfolding edges_from
  providers-done order queue degrees id s here p edge = elim (Has-dec p order) [
    | inl h ↦ h
    | inr absent ↦
        let (n, d, sum) = s.waits id in
        let none_left : n ≡ 0 = ground (arith, sym d ∙ s.ready_now id here) in
        absurd (
          omega (
            arith,
            none_left,
            sum,
            bound (p ∷ order) id (absent, Distinct-left order (id ∷ queue) s.distinct),
            occurs-Has id (slice_at p m) edge,
          ))
  ]

  pub kahn-InOrder :
      (fuel : ℕ) (order queue result : List String) (degrees : Dict ℤ)
      → State m total order queue degrees (edges_from m order)
      → InOrder m [] order
      → kahn fuel m queue degrees order ≡ some result
      → InOrder m [] result × Distinct result
  unfolding kahn
  kahn-InOrder fuel order [] result degrees s o h =
      let same : order ≡ result = ground (arith, h) in
      rw (sym same) (o, Distinct-left order [] s.distinct)
  kahn-InOrder zero order (id ∷ queue) result degrees s o h = ground (arith, h)
  kahn-InOrder (suc fuel) order (id ∷ queue) result degrees s o h =
      let assoc : (order ++ (id ∷ [])) ++ queue ≡ order ++ (id ∷ queue) =
        append_assoc order (id ∷ []) queue in
      let here : Has id (order ++ (id ∷ queue)) = Has-middle id order queue in
      let next = order ++ (id ∷ []) in
      let distinct : Distinct (next ++ queue) = subst Distinct (sym assoc) s.distinct in
      let popped : State m total next queue degrees (edges_from m order) = record {
        waits = s.waits;
        distinct = distinct;
        ready_now = λ j there. s.ready_now j (subst (Has j) assoc there);
      } in
      let counts : (j : String)
          → edges_from m next j ≡ occurs j (slice_at id m) + edges_from m order j =
        λ j. edges_from-snoc m order id j in
      let after = release_dependents (slice_at id m) queue degrees in
      kahn-InOrder fuel next after.0 result after.1
        (State-counted m total next after.0 after.1 _ _ (λ j. sym (counts j))
          (release_dependents-State m total (slice_at id m) next queue degrees (edges_from m order)
            popped
            (λ j. omega (arith, counts j, bound next j (Distinct-left next queue distinct)))))
        (InOrder-snoc m [] order id o
          (λ p edge. inr (providers-done order queue degrees id s here p edge)))
        h
