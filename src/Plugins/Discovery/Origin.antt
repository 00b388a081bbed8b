-- ===== src/Plugins/Discovery/Origin.antt =====
-- Where the plugins of a registry come from after discovery.
use authsentinel.Base.{
  ◌≡◌, sym, ap, ◌∙◌, arith, ◌⊎◌, inl, inr, Bool, true, false, not, ◌||◌, String, List, [], ◌∷◌,
  Option, none, some, Result, ok, err, lookup, lookup-insert, lookup-inserted, insert, eq_iff, ◌==◌,
  if◌then◌else◌, Bool-cases, Result-cases,
}
use authsentinel.Plugins.{Registration, Registry, register, disable, add_to}
use authsentinel.Plugins.Discovery.{
  Manifest, Verifier, Files, WalkEntry, visited, walk_error, known_kind, descriptor_of,
  to_descriptor, verified, switched_to, switched, discover_single, walk, continued, outcome,
  discover_from_dir, ext,
}
use authsentinel.Plugins.Registered.{register-ok}

abbrev pub enabled_of : Option Bool → Bool
enabled_of none = true
enabled_of (some b) = b

module _ (f : Files) (verifier : Option Verifier) where
  -- A registration made for a manifest that was read, decoded and verified and has a known kind
  pub record FromManifest (id : String) (reg : Registration) : Type 0 where
    pub path : String
    pub text : String
    pub manifest : Manifest
    pub read : f.read_file path ≡ ok text
    pub decoded : f.unmarshal text ≡ ok manifest
    pub verifies : verified verifier path manifest ≡ ok tt
    pub kind : known_kind manifest.kind ≡ true
    pub id_of : manifest.id ≡ id
    pub descriptor_is : reg.descriptor ≡ descriptor_of manifest
    pub enabled_is : reg.enabled ≡ enabled_of manifest.enabled

  -- A registry after a step has all of the former one, and else what a manifest says.
  pub record Grown (r r' : Registry) : Type 0 where
    pub kept :
        (id : String) (reg : Registration)
        → lookup id r.by_id ≡ some reg
        → lookup id r'.by_id ≡ some reg
    pub origin :
        (id : String) (reg : Registration)
        → lookup id r'.by_id ≡ some reg
        → (lookup id r.by_id ≡ some reg) ⊎ FromManifest id reg

  Grown-same : (r : Registry) → Grown r r
  Grown-same r = record { kept = λ id reg h. h; origin = λ id reg h. inl h }

  Grown-trans : (r s t : Registry) → Grown r s → Grown s t → Grown r t
  Grown-trans r s t g h = record {
    kept = λ id reg e. h.kept id reg (g.kept id reg e);
    origin =
        λ id reg e. elim (h.origin id reg e) [ inl old ↦ g.origin id reg old | inr new ↦ inr new ];
  }

switched-lookup :
    (on : Option Bool) (m : Manifest) (r : Registry) (j : String)
    → lookup j (switched_to on m.id (add_to r (descriptor_of m))).by_id ≡ (
        if m.id == j
        then some
            (record { descriptor = descriptor_of m; enabled = enabled_of on; state = "registered" })
        else lookup j r.by_id)
unfolding disable
switched-lookup none m r j = lookup-insert m.id j _ r.by_id
switched-lookup (some true) m r j = lookup-insert m.id j _ r.by_id
switched-lookup (some false) m r j =
    let reg : Registration = record {
      descriptor = descriptor_of m;
      enabled = true;
      state = "registered";
    } in
    let off : Registration = record reg { enabled = false } in
    rw (lookup-inserted m.id reg r.by_id) (
      ground (
        arith,
        lookup-insert m.id j off (insert m.id reg r.by_id),
        lookup-insert m.id j reg r.by_id,
      ))

module _ (f : Files) (verifier : Option Verifier) where
  registered-Grown :
      (path text : String) (m : Manifest) (r r' : Registry)
      → f.read_file path ≡ ok text
      → f.unmarshal text ≡ ok m
      → verified verifier path m ≡ ok tt
      → known_kind m.kind ≡ true
      → register r (descriptor_of m) ≡ ok r'
      → Grown f verifier r (switched m r')
  registered-Grown path text m r r' read decoded verifies kind h =
      let (fresh, same) = register-ok r r' (descriptor_of m) h in
      let at : (j : String) → lookup j (switched m r').by_id ≡ _ =
        λ j. ap (λ q. lookup j (switched m q).by_id) (sym same) ∙ switched-lookup m.enabled m r j in
      record {
        kept = λ id reg e. elim (Bool-cases (m.id == id)) [
          | inl mine ↦
              ground (arith, fresh, e, ap (λ j. lookup j r.by_id) ((eq_iff m.id id).0 mine))
          | inr other ↦ at id ∙ rw other e
        ];
        origin = λ id reg e. elim (Bool-cases (m.id == id)) [
          | inl mine ↦ inr (record {
            path = path;
            text = text;
            manifest = m;
            read = read;
            decoded = decoded;
            verifies = verifies;
            kind = kind;
            id_of = (eq_iff m.id id).0 mine;
            descriptor_is = ground (arith, at id, mine, e);
            enabled_is = ground (arith, at id, mine, e);
          })
          | inr other ↦ inl (ground (arith, at id, other, e))
        ];
      }

  discover_single-Grown :
      (path : String) (r : Registry) → Grown f verifier r (discover_single f verifier path r).1
  unfolding discover_single to_descriptor
  discover_single-Grown path r = elim (Result-cases (f.read_file path)) [
    | inr (e, h) ↦ rw h (Grown-same f verifier r)
    | inl (text, read) ↦ elim (Result-cases (f.unmarshal text)) [
      | inr (e, h) ↦ rw (read, h) (Grown-same f verifier r)
      | inl (m, decoded) ↦ elim (Result-cases (verified verifier path m)) [
        | inr (e, h) ↦ rw (read, decoded, h) (Grown-same f verifier r)
        | inl (u, verifies) ↦ elim (Bool-cases (known_kind m.kind)) [
          | inr other ↦ rw (read, decoded, verifies, other) (Grown-same f verifier r)
          | inl kind ↦ elim (Result-cases (register r (descriptor_of m))) [
            | inr (e, h) ↦ rw (read, decoded, verifies, kind, h) (Grown-same f verifier r)
            | inl (r', h) ↦
                rw (read, decoded, verifies, kind, h)
                  (registered-Grown path text m r r' read decoded verifies kind h)
          ]
        ]
      ]
    ]
  ]

  continued-Grown :
      (next : Registry → Option (String × Bool) × Registry) (r : Registry)
      (out : Result (Unit {0}) × Registry)
      → Grown f verifier r out.1
      → ((s : Registry) → Grown f verifier s (next s).1)
      → Grown f verifier r (continued f verifier next out).1
  continued-Grown next r (err e, s) g h = g
  continued-Grown next r (ok u, s) g h = Grown-trans f verifier r s (next s).1 g (h s)

  walk-Grown :
      (entries : List WalkEntry) (r : Registry) → Grown f verifier r (walk f verifier entries r).1
  unfolding walk
  walk-Grown [] r = Grown-same f verifier r
  walk-Grown (walk_error text not_exist ∷ more) r = Grown-same f verifier r
  walk-Grown (visited path name is_dir ∷ more) r =
      elim (Bool-cases (is_dir || not (ext name == ".json"))) [
        | inl skip ↦ rw skip (walk-Grown more r)
        | inr take ↦ rw take (
            continued-Grown (walk f verifier more) r (discover_single f verifier path r)
              (discover_single-Grown path r) (walk-Grown more))
      ]

  -- Discovery leaves every plugin that was registered before as it was, and each other plugin that the
  -- registry has afterwards was registered for a manifest that was read and decoded, that the verifier,
  -- if there is one, accepted, and that has a known kind; it is enabled unless the manifest says not.
  pub discover_from_dir-Grown :
      (root : String) (r : Registry) → Grown f verifier r (discover_from_dir f verifier root r).1
  unfolding discover_from_dir
  discover_from_dir-Grown root r =
      go (walk f verifier (f.walk_dir root) r) (walk-Grown (f.walk_dir root) r)
    where
      go :
          (w : Option (String × Bool) × Registry)
          → Grown f verifier r w.1
          → Grown f verifier r (outcome f verifier w).1
      go (none, s) g = g
      go (some (e, true), s) g = g
      go (some (e, false), s) g = g
