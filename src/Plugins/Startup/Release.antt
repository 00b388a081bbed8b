-- ===== src/Plugins/Startup/Release.antt =====
-- Kahn's algorithm: what holds of the queue, the degrees and the order at every round.
use mathlib.Core.List.{append_assoc}
use authsentinel.Base.{
  ◌≡◌, refl, sym, ap, ◌∙◌, subst, arith, ℕ, suc, ◌+◌, ◌⊎◌, inl, inr, Bool, true, false, String,
  List, [], ◌∷◌, ◌++◌, Dict, ℤ, pos, insert, eq_iff, ◌==◌, if◌then◌else◌, Bool-cases,
}
use authsentinel.Plugins.{slice_at}
use authsentinel.Plugins.Registered.{Has, Has-append_left}
use authsentinel.Plugins.Startup.{Edges, degree_at, is_zero}
use authsentinel.Plugins.Startup.Degrees.{degree_at-insert, is_zero_sound}
use authsentinel.Plugins.Startup.EdgeCounts.{Distinct, hit}

Has-snoc : (j x : String) (xs : List String) → Has j (xs ++ (x ∷ [])) → Has j xs ⊎ (j ≡ x)
Has-snoc j x [] (inl e) = inr e
Has-snoc j x [] (inr h) = absurd h
Has-snoc j x (y ∷ xs) (inl e) = inl (inl e)
Has-snoc j x (y ∷ xs) (inr h) = elim (Has-snoc j x xs h) [ inl k ↦ inl (inr k) | inr e ↦ inr e ]

pub Has-middle : (x : String) (xs ys : List String) → Has x (xs ++ (x ∷ ys))
Has-middle x [] ys = inl refl
Has-middle x (y ∷ xs) ys = inr (Has-middle x xs ys)

Distinct-snoc :
    (x : String) (xs : List String) → Distinct xs → (Has x xs → ⊥) → Distinct (xs ++ (x ∷ []))
Distinct-snoc x [] d h = ((λ k. k), tt)
Distinct-snoc x (y ∷ xs) d h = (
  (λ k. elim (Has-snoc y x xs k) [ inl old ↦ d.0 old | inr e ↦ h (inl (sym e)) ]),
  Distinct-snoc x xs d.1 (λ k. h (inr k)),
)

pub Distinct-left : (xs ys : List String) → Distinct (xs ++ ys) → Distinct xs
Distinct-left [] ys d = tt
Distinct-left (x ∷ xs) ys d = ((λ h. d.0 (Has-append_left x xs ys h)), Distinct-left xs ys d.1)

-- Each plugin of a list stands behind those that it depends on, in `seen` or in the list.
abbrev pub InOrder : Edges → List String → List String → Type 0
InOrder m seen [] = Unit
InOrder m seen (x ∷ xs) =
    ((p : String) → Has x (slice_at p m) → Has p seen) × InOrder m (x ∷ seen) xs

pub InOrder-snoc :
    (m : Edges) (seen xs : List String) (x : String)
    → InOrder m seen xs
    → ((p : String) → Has x (slice_at p m) → Has p seen ⊎ Has p xs)
    → InOrder m seen (xs ++ (x ∷ []))
InOrder-snoc m seen [] x o h = ((λ p e. elim (h p e) [ inl k ↦ k | inr k ↦ absurd k ]), tt)
InOrder-snoc m seen (y ∷ xs) x o h = (
  o.0,
  InOrder-snoc m (y ∷ seen) xs x o.1 λ p e. elim (h p e) [
    | inl k ↦ inl (inr k)
    | inr k ↦ elim k [ inl same ↦ inl (inl same) | inr later ↦ inr later ]
  ],
)

module _ (m : Edges) (total : String → ℕ) where
  -- A plugin waits for what it needs less what has been counted; none that is queued or done waits.
  pub record State (order queue : List String) (degrees : Dict ℤ) (counted : String → ℕ)
      : Type 0 where
    pub waits : (j : String) → (n : ℕ) × (degree_at j degrees ≡ pos n) × (n + counted j ≡ total j)
    pub distinct : Distinct (order ++ queue)
    pub ready_now : (j : String) → Has j (order ++ queue) → degree_at j degrees ≡ pos 0

  pub State-counted :
      (order queue : List String) (degrees : Dict ℤ) (c c' : String → ℕ)
      → ((j : String) → c j ≡ c' j)
      → State order queue degrees c
      → State order queue degrees c'
  State-counted order queue degrees c c' e s = record {
    waits = λ j. let (n, d, sum) = s.waits j in (n, d, omega (arith, sum, e j));
    distinct = s.distinct;
    ready_now = s.ready_now;
  }

  module _ (order queue : List String) (degrees : Dict ℤ) (c : String → ℕ)
      (s : State order queue degrees c) (id : String) (k : ℕ)
      (e : degree_at id degrees ≡ pos (suc k)) (sum : suc k + c id ≡ total id) where
    abbrev pub after : Dict ℤ
    after = insert id (pos k) degrees

    absent : Has id (order ++ queue) → ⊥
    absent h = ground (arith, sym e ∙ s.ready_now id h)

    unchanged : (j : String) → Has j (order ++ queue) → degree_at j after ≡ pos 0
    unchanged j h = elim (Bool-cases (id == j)) [
      | inl same ↦
          absurd (absent (subst (λ x. Has x (order ++ queue)) (sym ((eq_iff id j).0 same)) h))
      | inr other ↦ degree_at-insert id j (pos k) degrees ∙ rw other (s.ready_now j h)
    ]

    waits_after :
        (j : String) → (n : ℕ) × (degree_at j after ≡ pos n) × (n + (hit id j + c j) ≡ total j)
    waits_after j = elim (Bool-cases (id == j)) [
      | inl same ↦ (
        k,
        degree_at-insert id j (pos k) degrees ∙ rw same refl,
        ground (arith, same, sum, ap c ((eq_iff id j).0 same), ap total ((eq_iff id j).0 same)),
      )
      | inr other ↦
          let (n, d, sum') = s.waits j in
          (n, degree_at-insert id j (pos k) degrees ∙ rw other d, ground (arith, other, sum'))
    ]

    pub queued :
        (b : Bool)
        → is_zero (pos k) ≡ b
        → State order (if b then queue ++ (id ∷ []) else queue) after (λ j. hit id j + c j)
    queued false h = record { waits = waits_after; distinct = s.distinct; ready_now = unchanged }
    queued true h =
        let assoc : (order ++ queue) ++ (id ∷ []) ≡ order ++ (queue ++ (id ∷ [])) =
          append_assoc order queue (id ∷ []) in
        record {
          waits = waits_after;
          distinct = subst Distinct assoc (Distinct-snoc id (order ++ queue) s.distinct absent);
          ready_now = λ j there.
              elim (Has-snoc j id (order ++ queue) (subst (Has j) (sym assoc) there)) [
                | inl old ↦ unchanged j old
                | inr mine ↦
                    ap (λ x. degree_at x after) mine
                    ∙ degree_at-insert id id (pos k) degrees
                    ∙ rw ((eq_iff id id).1 refl) (is_zero_sound (pos k) h)
              ];
        }
