-- ===== src/Plugins/Registered.antt =====
-- Which plugins a registry hands out.
use authsentinel.Base.{
  ◌≡◌, refl, sym, inl, inr, true, String, List, [], ◌∷◌, ◌++◌, none, some, ok, Dict, lookup,
  lookup-insert, lookup-inserted, Exists, if◌then◌else◌, ◌==◌, eq_iff, arith, Bool-cases,
  Option-cases, subst,
}
use authsentinel.Plugins.{
  Descriptor, Registration, Registry, slice_at, append_at, provide, add_to, register, enabled_among,
  resolve_by_capability,
}

abbrev pub Has : String → List String → Type 0
Has x = Exists (λ y. x ≡ y)

pub Has-append_left : (x : String) (xs ys : List String) → Has x xs → Has x (xs ++ ys)
Has-append_left x [] ys h = absurd h
Has-append_left x (y ∷ xs) ys (inl e) = inl e
Has-append_left x (y ∷ xs) ys (inr h) = inr (Has-append_left x xs ys h)

pub Has-append_last : (x : String) (xs : List String) → Has x (xs ++ (x ∷ []))
Has-append_last x [] = inl refl
Has-append_last x (y ∷ xs) = inr (Has-append_last x xs)

pub slice_at-append_at :
    (k j x : String) (m : Dict (List String))
    → slice_at j (append_at k x m) ≡ (if k == j then slice_at k m ++ (x ∷ []) else slice_at j m)
unfolding slice_at append_at
slice_at-append_at k j x m = ground (arith, lookup-insert k j (slice_at k m ++ (x ∷ [])) m)

provide-keeps :
    (id x cap : String) (caps : List String) (m : Dict (List String))
    → Has x (slice_at cap m)
    → Has x (slice_at cap (provide id caps m))
unfolding provide
provide-keeps id x cap [] m h = h
provide-keeps id x cap (c ∷ caps) m h =
    provide-keeps id x cap caps (append_at c id m) (elim (Bool-cases (c == cap)) [
      | inl same ↦
          rw (slice_at-append_at c cap id m, same, (eq_iff c cap).0 same)
            (Has-append_left x (slice_at cap m) (id ∷ []) h)
      | inr other ↦ rw (slice_at-append_at c cap id m, other) h
    ])

provide-Has :
    (id cap : String) (caps : List String) (m : Dict (List String))
    → Has cap caps
    → Has id (slice_at cap (provide id caps m))
unfolding provide
provide-Has id cap [] m h = absurd h
provide-Has id cap (c ∷ caps) m (inl e) = provide-keeps id id cap caps (append_at c id m) (
    rw (slice_at-append_at c cap id m, (eq_iff c cap).1 (sym e))
      (Has-append_last id (slice_at c m)))
provide-Has id cap (c ∷ caps) m (inr h) = provide-Has id cap caps (append_at c id m) h

enabled_among-Has :
    (regs : Dict Registration) (id : String) (reg : Registration) (ids : List String)
    → lookup id regs ≡ some reg
    → reg.enabled ≡ true
    → Has id ids
    → Exists (λ d. reg.descriptor ≡ d) (enabled_among regs ids)
unfolding enabled_among
enabled_among-Has regs id reg [] e on h = absurd h
enabled_among-Has regs id reg (i ∷ ids) e on (inl same) = rw (← same, e, on) (inl refl)
enabled_among-Has regs id reg (i ∷ ids) e on (inr h) =
    let ih = enabled_among-Has regs id reg ids e on h in
    elim (Option-cases (lookup i regs)) [
      | inl missing ↦ rw missing ih
      | inr (other, there) ↦ elim (Bool-cases other.enabled) [
        | inl on' ↦ rw (there, on') (inr ih)
        | inr off ↦ rw (there, off) ih
      ]
    ]

pub register-ok :
    (r r' : Registry) (d : Descriptor)
    → register r d ≡ ok r'
    → (lookup d.id r.by_id ≡ none) × (add_to r d ≡ r')
unfolding register
register-ok r r' d h = ground arith

-- A plugin that was registered is among those that provide each of its capabilities.
pub register-resolve_by_capability :
    (r r' : Registry) (d : Descriptor) (cap : String)
    → register r d ≡ ok r'
    → Has cap d.capabilities
    → Exists (λ x. d ≡ x) (resolve_by_capability r' cap)
unfolding resolve_by_capability
register-resolve_by_capability r r' d cap h has =
    let (_, same) = register-ok r r' d h in
    subst
      (λ (q : Registry). Exists (λ x. d ≡ x) (enabled_among q.by_id (slice_at cap q.by_capability)))
      same
      (enabled_among-Has (add_to r d).by_id d.id
        (record { descriptor = d; enabled = true; state = "registered" })
        (slice_at cap (provide d.id d.capabilities r.by_capability))
        (lookup-inserted d.id _ r.by_id) refl
        (provide-Has d.id cap d.capabilities r.by_capability has))
