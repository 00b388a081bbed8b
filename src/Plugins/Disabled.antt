-- ===== src/Plugins/Disabled.antt =====
-- The registry's invariant, and what it means that a plugin is disabled.
use authsentinel.Base.{
  ◌≡◌, refl, sym, ap, ◌∙◌, ◌≢◌, inl, inr, Bool, true, false, String, List, [], ◌∷◌, some, ok, Dict,
  lookup, insert, lookup-insert, All, ◌==◌, eq_iff, arith, Bool-cases, Option-cases, subst,
  ne_of_==-false,
}
use authsentinel.Plugins.{
  Descriptor, Registration, Registry, slice_at, register, enable, disable, enabled_among,
  resolve_by_capability,
}
use authsentinel.Plugins.Registered.{register-ok}

-- Every registration stands under the ID of its descriptor.
abbrev pub Keyed : Dict Registration → Type 0
Keyed regs = (k : String) (reg : Registration) → lookup k regs ≡ some reg → reg.descriptor.id ≡ k

insert-Keyed :
    (id : String) (new : Registration) (regs : Dict Registration)
    → new.descriptor.id ≡ id
    → Keyed regs
    → Keyed (insert id new regs)
insert-Keyed id new regs e keyed k reg h = elim (Bool-cases (id == k)) [
  | inl same ↦
      let found : new ≡ reg = ground (arith, lookup-insert id k new regs, same, h) in
      ap (λ (x : Registration). x.descriptor.id) (sym found) ∙ e ∙ (eq_iff id k).0 same
  | inr other ↦ keyed k reg (ground (arith, lookup-insert id k new regs, other, h))
]

abbrev pub turned : Registry → String → Bool → Registration → Registry
turned r id on reg = record r { by_id = insert id (record reg { enabled = on }) r.by_id }

enable-ok :
    (r r' : Registry) (id : String)
    → enable r id ≡ ok r'
    → (reg : Registration) × (lookup id r.by_id ≡ some reg) × (turned r id true reg ≡ r')
unfolding enable
enable-ok r r' id h = elim (Option-cases (lookup id r.by_id)) [
  | inl missing ↦ ground (arith, missing, h)
  | inr (reg, there) ↦ (reg, there, ground (arith, there, h))
]

pub disable-ok :
    (r r' : Registry) (id : String)
    → disable r id ≡ ok r'
    → (reg : Registration) × (lookup id r.by_id ≡ some reg) × (turned r id false reg ≡ r')
unfolding disable
disable-ok r r' id h = elim (Option-cases (lookup id r.by_id)) [
  | inl missing ↦ ground (arith, missing, h)
  | inr (reg, there) ↦ (reg, there, ground (arith, there, h))
]

turned-Keyed :
    (r r' : Registry) (id : String) (on : Bool) (reg : Registration)
    → Keyed r.by_id
    → lookup id r.by_id ≡ some reg
    → turned r id on reg ≡ r'
    → Keyed r'.by_id
turned-Keyed r r' id on reg keyed there same =
    subst (λ (q : Registry). Keyed q.by_id) same
      (insert-Keyed id (record reg { enabled = on }) r.by_id (keyed id reg there) keyed)

-- One of the three operations that write registrations
pub data Step (r r' : Registry) : Type 0 where
  registered : (d : Descriptor) → register r d ≡ ok r' → Step r r'
  enabled : (id : String) → enable r id ≡ ok r' → Step r r'
  disabled : (id : String) → disable r id ≡ ok r' → Step r r'

-- Register, Enable and Disable keep every registration under the ID of its descriptor.
pub Step-Keyed : (r r' : Registry) → Step r r' → Keyed r.by_id → Keyed r'.by_id
Step-Keyed r r' (registered d h) keyed =
    let (_, same) = register-ok r r' d h in
    subst (λ (q : Registry). Keyed q.by_id) same
      (insert-Keyed d.id (record { descriptor = d; enabled = true; state = "registered" }) r.by_id
        refl keyed)
Step-Keyed r r' (enabled id h) keyed =
    let (reg, there, same) = enable-ok r r' id h in turned-Keyed r r' id true reg keyed there same
Step-Keyed r r' (disabled id h) keyed =
    let (reg, there, same) = disable-ok r r' id h in turned-Keyed r r' id false reg keyed there same

enabled_among-All :
    (regs : Dict Registration) (id : String) (ids : List String)
    → ((k : String) (reg : Registration)
        → lookup k regs ≡ some reg
        → reg.enabled ≡ true
        → reg.descriptor.id ≢ id)
    → All (λ (d : Descriptor). d.id ≢ id) (enabled_among regs ids)
unfolding enabled_among
enabled_among-All regs id [] h = tt
enabled_among-All regs id (i ∷ ids) h =
    let ih = enabled_among-All regs id ids h in
    elim (Option-cases (lookup i regs)) [
      | inl missing ↦ rw missing ih
      | inr (reg, there) ↦ elim (Bool-cases reg.enabled) [
        | inl on ↦ rw (there, on) (h i reg there on, ih)
        | inr off ↦ rw (there, off) ih
      ]
    ]

off-others :
    (r : Registry) (id : String) (reg : Registration)
    → Keyed r.by_id
    → (k : String) (x : Registration)
    → lookup k (insert id (record reg { enabled = false }) r.by_id) ≡ some x
    → x.enabled ≡ true
    → x.descriptor.id ≢ id
off-others r id reg keyed k x found on = elim (Bool-cases (id == k)) [
  | inl same ↦
      ground (arith, lookup-insert id k (record reg { enabled = false }) r.by_id, same, found, on)
  | inr other ↦
      let there : lookup k r.by_id ≡ some x =
        ground (arith, lookup-insert id k (record reg { enabled = false }) r.by_id, other, found) in
      λ e. ne_of_==-false id k other (sym e ∙ keyed k x there)
]

-- In a registry whose registrations stand under their IDs, a plugin that was disabled is handed out
-- for no capability.
pub disable-resolve_by_capability :
    (r r' : Registry) (id cap : String)
    → Keyed r.by_id
    → disable r id ≡ ok r'
    → All (λ (d : Descriptor). d.id ≢ id) (resolve_by_capability r' cap)
unfolding resolve_by_capability
disable-resolve_by_capability r r' id cap keyed h =
    let (reg, there, same) = disable-ok r r' id h in
    subst
      (λ (q : Registry).
        All (λ (d : Descriptor). d.id ≢ id) (enabled_among q.by_id (slice_at cap q.by_capability)))
      same
      (enabled_among-All (turned r id false reg).by_id id (slice_at cap r.by_capability)
        (off-others r id reg keyed))
