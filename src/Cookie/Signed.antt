-- ===== src/Cookie/Signed.antt =====
-- What a signed cookie guarantees.
use authsentinel.Base.{
  ◌≡◌, ◌∙◌, refl, sym, ap, Bool-cases, Option-cases, eq_iff, eq_refl, arith, inl, inr, ◌⊎◌, String,
  List, ◌∷◌, [], some, ok, ◌==◌, Exists, subst, ok_injective,
}
use authsentinel.Cookie.{SignedManager, Coding, encode, decode, decode_payload, try_older, verify}
use authsentinel.Text.{◌+s◌, cut}
use authsentinel.Text.Laws.{cut_sound, cut-append, Lacks}

-- A cookie is signed: its payload stands for the session ID, and the rest of it for a signature of
-- the payload by one of the manager's secrets.
pub record Signed (c : Coding) (m : SignedManager) (raw id : String) : Type 0 where
  pub payload : String
  pub signature : String
  pub parts : raw ≡ payload +s "." +s signature
  pub stands_for : c.decode payload ≡ some id
  pub secret : String
  pub known : (secret ≡ m.primary) ⊎ Exists (λ s. secret ≡ s) m.older
  pub signed : c.decode signature ≡ some (c.sign_with secret payload)

module _ (c : Coding) where
  decode_payload_sound :
      (payload id : String) → decode_payload c payload ≡ ok id → c.decode payload ≡ some id
  unfolding decode_payload
  decode_payload_sound payload id h = elim (Option-cases (c.decode payload)) [
    | inl e ↦ ground (arith, e, h)
    | inr (d, e) ↦ ground (arith, e, h)
  ]

  decode_payload_good :
      (payload id : String) → c.decode payload ≡ some id → decode_payload c payload ≡ ok id
  unfolding decode_payload
  decode_payload_good payload id e = rw e refl

  try_older_sound :
      (older : List String) (payload sig id : String)
      → try_older c older payload sig ≡ ok id
      → (secret : String) × Exists (λ s. secret ≡ s) older
        × (sig ≡ c.sign_with secret payload)
        × (c.decode payload ≡ some id)
  unfolding try_older
  try_older_sound [] payload sig id h = ground (arith, h)
  try_older_sound (old ∷ more) payload sig id h =
      elim (Bool-cases (sig == c.sign_with old payload)) [
        | inl e ↦ (
          old,
          inl refl,
          (eq_iff sig (c.sign_with old payload)).0 e,
          decode_payload_sound payload id (ground (arith, e, h)),
        )
        | inr e ↦
            let (s, known, signed, means) =
              try_older_sound more payload sig id (ground (arith, e, h)) in
            (s, inr known, signed, means)
      ]

  verify_sound :
      (m : SignedManager) (payload signature sig id : String)
      → c.decode signature ≡ some sig
      → verify c m payload (some sig) ≡ ok id
      → Signed c m (payload +s "." +s signature) id
  verify_sound m payload signature sig id e h =
      elim (Bool-cases (sig == c.sign_with m.primary payload)) [
        | inl same ↦ record {
          payload = payload;
          signature = signature;
          parts = refl;
          stands_for = decode_payload_sound payload id (ground (arith, same, h));
          secret = m.primary;
          known = inl refl;
          signed = e ∙ ap some ((eq_iff sig (c.sign_with m.primary payload)).0 same);
        }
        | inr other ↦
            let (s, known, signed, means) =
              try_older_sound m.older payload sig id (ground (arith, other, h)) in
            record {
              payload = payload;
              signature = signature;
              parts = refl;
              stands_for = means;
              secret = s;
              known = inr known;
              signed = e ∙ ap some signed;
            }
      ]

  -- A cookie value that decodes to a session ID is signed for it by a secret of the manager, the
  -- current one or an older one.
  pub decode-Signed :
      (m : SignedManager) (raw id : String) → decode c m raw ≡ ok id → Signed c m raw id
  unfolding decode
  decode-Signed m raw id h = elim (Option-cases (cut b'.' raw)) [
    | inl e ↦ ground (arith, e, h)
    | inr ((payload, signature), e) ↦ elim (Option-cases (c.decode signature)) [
      | inl undecodable ↦ ground (arith, e, undecodable, h)
      | inr (sig, decodable) ↦
          let good : verify c m payload (some sig) ≡ ok id = ground (arith, e, decodable, h) in
          subst (λ r. Signed c m r id) (sym (cut_sound raw payload signature e))
            (verify_sound m payload signature sig id decodable good)
    ]
  ]

  try_older-known :
      (older : List String) (secret payload : String)
      → Exists (λ s. secret ≡ s) older
      → try_older c older payload (c.sign_with secret payload) ≡ decode_payload c payload
  unfolding try_older
  try_older-known [] secret payload known = ground (arith, known)
  try_older-known (old ∷ more) secret payload (inl e) =
      rw (e, eq_refl (c.sign_with old payload)) refl
  try_older-known (old ∷ more) secret payload (inr known) =
      ground (arith, try_older-known more secret payload known)

  verify-known :
      (m : SignedManager) (secret payload : String)
      → (secret ≡ m.primary) ⊎ Exists (λ s. secret ≡ s) m.older
      → verify c m payload (some (c.sign_with secret payload)) ≡ decode_payload c payload
  verify-known m secret payload (inl e) = rw (e, eq_refl (c.sign_with m.primary payload)) refl
  verify-known m secret payload (inr known) =
      ground (arith, try_older-known m.older secret payload known)

  -- A session ID that was encoded when the secret was `old.primary` is read back by every manager
  -- that still knows that secret, where base64 is undone by its decoder and has no dot in its output.
  pub decode-encode :
      (old m : SignedManager) (id raw : String)
      → ((s : String) → c.decode (c.encode s) ≡ some s)
      → ((s : String) → Lacks b'.' (c.encode s))
      → (old.primary ≡ m.primary) ⊎ Exists (λ s. old.primary ≡ s) m.older
      → encode c old id ≡ ok raw
      → decode c m raw ≡ ok id
  unfolding encode decode
  decode-encode old m id raw inverse no_dot known e =
      let payload = c.encode id in
      let sig = c.sign_with old.primary payload in
      let form : raw ≡ payload +s "." +s c.encode sig = sym (ok_injective e) in
      let reads : decode_payload c payload ≡ ok id = decode_payload_good payload id (inverse id) in
      rw (form, cut-append payload (c.encode sig) (no_dot id), inverse sig)
        (verify-known m old.primary payload known ∙ reads)
