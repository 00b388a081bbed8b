-- ===== src/Plugins/Startup/Degrees.antt =====
-- The degrees that Kahn's algorithm starts with.
use authsentinel.Base.{
  ◌≡◌, refl, sym, ap, ◌∙◌, subst, arith, ◌<◌, ℕ, ◌+◌, ◌*◌, ◌⊎◌, inl, inr, true, String, List, [],
  ◌∷◌, Dict, ℤ, pos, negsuc, length, lookup, lookup-insert, insert, eqb→eq, eq_iff, ◌==◌,
  if◌then◌else◌, Bool-cases, add64, add64_pos, word_half,
}
use authsentinel.Plugins.{Registration, Registry, slice_at}
use authsentinel.Plugins.Registered.{Has}
use authsentinel.Plugins.Startup.{
  Edges, degree_at, zero_degrees, count_providers, count_all, in_degree, is_zero, ready,
}
use authsentinel.Plugins.Startup.EdgeCounts.{Distinct, hit, needed_by, needed}

pub degree_at-insert :
    (k j : String) (n : ℤ) (m : Dict ℤ)
    → degree_at j (insert k n m) ≡ (if k == j then n else degree_at j m)
unfolding degree_at
degree_at-insert k j n m = ground (arith, lookup-insert k j n m)

degree_at-zero_degrees :
    (regs : Dict Registration) (j : String) → degree_at j (zero_degrees regs) ≡ pos 0
unfolding zero_degrees degree_at lookup
degree_at-zero_degrees [] j = refl
degree_at-zero_degrees (entry ∷ rest) j = elim (Bool-cases (entry.0 == j)) [
  | inl same ↦ degree_at-insert entry.0 j (pos 0) (zero_degrees rest) ∙ rw same refl
  | inr other ↦
      degree_at-insert entry.0 j (pos 0) (zero_degrees rest)
      ∙ rw other (degree_at-zero_degrees rest j)
]

module _ (providers : Edges) where
  count_providers-needed :
      (id j : String) (caps : List String) (m : Dict ℤ) (n k : ℕ)
      → degree_at j m ≡ pos n
      → degree_at id m ≡ pos k
      → hit id j * needed_by providers caps + n < word_half
      → needed_by providers caps + k < word_half
      → degree_at j (count_providers providers id caps m)
        ≡ pos (hit id j * needed_by providers caps + n)
  unfolding count_providers needed_by
  count_providers-needed id j [] m n k h hk b bk = h ∙ ap pos (omega arith)
  count_providers-needed id j (c ∷ caps) m n k h hk b bk =
      let many = length (slice_at c providers) in
      let sum : add64 (degree_at id m) (pos many) ≡ pos (k + many) =
        ap (λ d. add64 d (pos many)) hk ∙ add64_pos k many (omega arith) in
      let m1 = insert id (add64 (degree_at id m) (pos many)) m in
      let at_id : degree_at id m1 ≡ pos (k + many) =
        degree_at-insert id id _ m ∙ rw ((eq_iff id id).1 refl) sum in
      elim (Bool-cases (id == j)) [
        | inl same ↦
            let e : id ≡ j = (eq_iff id j).0 same in
            let nk : k ≡ n = ground (arith, sym hk ∙ ap (λ x. degree_at x m) e ∙ h) in
            let at_j : degree_at j m1 ≡ pos (n + many) =
              ap (λ x. degree_at x m1) (sym e) ∙ at_id ∙ ap (λ x. pos (x + many)) nk in
            count_providers-needed id j caps m1 (n + many) (k + many) at_j at_id
              (ground (arith, same, b)) (omega (arith, bk))
            ∙ ap pos (ground (arith, same))
        | inr other ↦
            let at_j : degree_at j m1 ≡ pos n = degree_at-insert id j _ m ∙ rw other h in
            count_providers-needed id j caps m1 n (k + many) at_j at_id (ground (arith, other, b))
              (omega (arith, bk))
            ∙ ap pos (ground (arith, other))
      ]

  count_all-needed :
      (deps : Edges) (m : Dict ℤ) (n : String → ℕ)
      → ((j : String) → degree_at j m ≡ pos (n j))
      → ((j : String) → needed providers deps j + n j < word_half)
      → (j : String)
      → degree_at j (count_all providers deps m) ≡ pos (needed providers deps j + n j)
  unfolding count_all needed
  count_all-needed [] m n h b j = h j ∙ ap pos (omega arith)
  count_all-needed ((id, caps) ∷ rest) m n h b j =
      let one : hit id id ≡ 1 = rw ((eq_iff id id).1 refl) refl in
      let at_id : needed_by providers caps + n id < word_half =
        omega (arith, b id, ap (λ x. x * needed_by providers caps) one) in
      count_all-needed rest (count_providers providers id caps m)
        (λ i. hit id i * needed_by providers caps + n i)
        (λ i.
          count_providers-needed id i caps m (n i) (n id) (h i) (h id) (omega (arith, b i)) at_id)
        (λ i. omega (arith, b i)) j
      ∙ ap pos (omega arith)

-- Every plugin starts with as many as it needs, where that does not overflow.
pub in_degree-needed :
    (r : Registry)
    → ((j : String) → needed r.by_capability r.dependencies j < word_half)
    → (j : String) → degree_at j (in_degree r) ≡ pos (needed r.by_capability r.dependencies j)
unfolding in_degree
in_degree-needed r small j =
    count_all-needed r.by_capability r.dependencies (zero_degrees r.by_id) (λ i. 0)
      (degree_at-zero_degrees r.by_id) (λ i. omega (arith, small i)) j
    ∙ ap pos (omega arith)

keys : Dict ℤ → List String
keys [] = []
keys ((k, _) ∷ rest) = k ∷ keys rest

keys-insert :
    (k j : String) (n : ℤ) (m : Dict ℤ) → Has j (keys (insert k n m)) → (j ≡ k) ⊎ Has j (keys m)
unfolding keys insert
keys-insert k j n [] (inl e) = inl e
keys-insert k j n [] (inr h) = inr h
keys-insert k j n ((x, y) ∷ m) h = elim (Bool-cases (x == k)) [
  | inl same ↦ elim (rw same at h) [ inl e ↦ inl e | inr later ↦ inr (inr later) ]
  | inr other ↦ elim (rw other at h) [
    | inl e ↦ inr (inl e)
    | inr later ↦ elim (keys-insert k j n m later) [ inl e ↦ inl e | inr old ↦ inr (inr old) ]
  ]
]

insert-Distinct :
    (k : String) (n : ℤ) (m : Dict ℤ) → Distinct (keys m) → Distinct (keys (insert k n m))
unfolding keys insert
insert-Distinct k n [] d = ((λ h. h), tt)
insert-Distinct k n ((x, y) ∷ m) d = elim (Bool-cases (x == k)) [
  | inl same ↦ rw same ((λ h. d.0 (subst (λ i. Has i (keys m)) (sym ((eq_iff x k).0 same)) h)), d.1)
  | inr other ↦ rw other (
    (λ h. elim (keys-insert k x n m h) [
      | inl e ↦ ground (arith, eq_iff x k, e, other)
      | inr old ↦ d.0 old
    ]),
    insert-Distinct k n m d.1,
  )
]

zero_degrees-Distinct : (regs : Dict Registration) → Distinct (keys (zero_degrees regs))
unfolding zero_degrees keys
zero_degrees-Distinct [] = tt
zero_degrees-Distinct (entry ∷ rest) =
    insert-Distinct entry.0 (pos 0) (zero_degrees rest) (zero_degrees-Distinct rest)

count_providers-Distinct :
    (providers : Edges) (id : String) (caps : List String) (m : Dict ℤ)
    → Distinct (keys m)
    → Distinct (keys (count_providers providers id caps m))
unfolding count_providers
count_providers-Distinct providers id [] m d = d
count_providers-Distinct providers id (c ∷ caps) m d =
    count_providers-Distinct providers id caps _ (insert-Distinct id _ m d)

count_all-Distinct :
    (providers deps : Edges) (m : Dict ℤ)
    → Distinct (keys m)
    → Distinct (keys (count_all providers deps m))
unfolding count_all
count_all-Distinct providers [] m d = d
count_all-Distinct providers ((id, caps) ∷ rest) m d =
    count_all-Distinct providers rest (count_providers providers id caps m)
      (count_providers-Distinct providers id caps m d)

ready-keys : (m : Dict ℤ) (j : String) → Has j (ready m) → Has j (keys m)
unfolding ready keys
ready-keys [] j h = h
ready-keys ((x, n) ∷ m) j h = elim (Bool-cases (is_zero n)) [
  | inl zero_degree ↦ elim (rw zero_degree at h) [
    | inl e ↦ inl e
    | inr later ↦ inr (ready-keys m j later)
  ]
  | inr more ↦ inr (ready-keys m j (rw more at h))
]

ready-Distinct : (m : Dict ℤ) → Distinct (keys m) → Distinct (ready m)
unfolding ready keys
ready-Distinct [] d = tt
ready-Distinct ((x, n) ∷ m) d = elim (Bool-cases (is_zero n)) [
  | inl zero_degree ↦ rw zero_degree ((λ h. d.0 (ready-keys m x h)), ready-Distinct m d.1)
  | inr more ↦ rw more (ready-Distinct m d.1)
]

pub is_zero_sound : (n : ℤ) → is_zero n ≡ true → n ≡ pos 0
is_zero_sound (pos n) h = ap pos (eqb→eq n 0 h)
is_zero_sound (negsuc n) h = ground (arith, h)

ready-degree :
    (m : Dict ℤ) (j : String) → Distinct (keys m) → Has j (ready m) → degree_at j m ≡ pos 0
unfolding ready keys degree_at lookup
ready-degree [] j d h = absurd h
ready-degree ((x, n) ∷ m) j d h = elim (Bool-cases (x == j)) [
  | inl same ↦
      let e : x ≡ j = (eq_iff x j).0 same in
      elim (Bool-cases (is_zero n)) [
        | inl zero_degree ↦ rw same (is_zero_sound n zero_degree)
        | inr more ↦
            absurd (d.0 (subst (λ i. Has i (keys m)) (sym e) (ready-keys m j (rw more at h))))
      ]
  | inr other ↦ elim (Bool-cases (is_zero n)) [
    | inl zero_degree ↦ elim (rw zero_degree at h) [
      | inl e ↦ ground (arith, eq_iff x j, e, other)
      | inr later ↦ rw other (ready-degree m j d.1 later)
    ]
    | inr more ↦ rw other (ready-degree m j d.1 (rw more at h))
  ]
]

-- The queue starts with plugins of degree zero, each once.
pub in_degree-ready :
    (r : Registry)
    → Distinct (ready (in_degree r))
      × ((j : String) → Has j (ready (in_degree r)) → degree_at j (in_degree r) ≡ pos 0)
unfolding in_degree
in_degree-ready r =
    let d =
      count_all-Distinct r.by_capability r.dependencies (zero_degrees r.by_id)
        (zero_degrees-Distinct r.by_id) in
    (ready-Distinct (in_degree r) d, λ j h. ready-degree (in_degree r) j d h)
