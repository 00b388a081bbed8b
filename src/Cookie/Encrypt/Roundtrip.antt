-- ===== src/Cookie/Encrypt/Roundtrip.antt =====
-- What EncodeValue has written is read back.
use text.Mathlib.TextLemmas.{nil-append, cons-append}
use authsentinel.Base.{
  ◌≡◌, ◌≢◌, refl, sym, ap, arith, ◌≤◌, ℕ, ◌+◌, String, some, Result, ok, Bool-cases, inl, inr, leb,
  ◌==◌, false, ==-false, Result-cases,
}
use authsentinel.Cookie.{Coding}
use authsentinel.Cookie.Encrypt.{
  Aead, Crypto, size, take, drop, derive_key, gcm_for, encrypt, decrypt, unseal_with, encode_value,
  decode_value,
}
use authsentinel.Text.{◌+s◌}

pub size-append : (s t : String) → size (s +s t) ≡ size s + size t
unfolding size
size-append String.[] t = rw nil-append (omega arith)
size-append (String.◌∷◌ c s) t = rw (cons-append c s t) (omega (arith, size-append s t))

take-append : (s t : String) → take (size s) (s +s t) ≡ s
unfolding size take
take-append String.[] t = refl
take-append (String.◌∷◌ c s) t = rw (cons-append c s t) (ap (String.◌∷◌ c) (take-append s t))

drop-append : (s t : String) → drop (size s) (s +s t) ≡ t
unfolding size drop
drop-append String.[] t = nil-append t
drop-append (String.◌∷◌ c s) t = rw (cons-append c s t) (drop-append s t)

size-pos : (s : String) → s ≢ "" → 1 ≤ size s
unfolding size
size-pos String.[] h = absurd (h refl)
size-pos (String.◌∷◌ c s) h = omega arith

-- What is relied on of the random source and of AES-GCM: nonces of 12 bytes, tags of 16, and that a
-- sealed text is opened with the nonce it was sealed with.
pub record Lawful {B X : Type 0} (d : Crypto B X) : Type 0 where
  pub random_size : (n : ℕ) (x x' : X) (r : String) → d.random n x ≡ (ok r, x') → size r ≡ n
  pub nonce_bytes : (b : B) (a : Aead) → d.new_gcm b ≡ ok a → a.nonce_size ≡ 12
  pub seal_size :
      (b : B) (a : Aead) (nonce plain : String)
      → d.new_gcm b ≡ ok a
      → size (a.seal nonce plain) ≡ size plain + 16
  pub unseal-seal :
      (b : B) (a : Aead) (nonce plain : String)
      → d.new_gcm b ≡ ok a
      → size nonce ≡ a.nonce_size
      → a.unseal nonce (a.seal nonce plain) ≡ some plain

module _ {B X : Type 0} (d : Crypto B X) (lawful : Lawful d) where
  unseal_with-sealed :
      (b : B) (a : Aead) (nonce plain : String)
      → d.new_gcm b ≡ ok a
      → size nonce ≡ a.nonce_size
      → unseal_with d (ok a) (nonce +s a.seal nonce plain) ≡ ok plain
  unseal_with-sealed b a nonce plain made n =
      rw
        (
          sym n,
          take-append nonce (a.seal nonce plain),
          drop-append nonce (a.seal nonce plain),
          lawful.unseal-seal b a nonce plain made n,
        )
        refl

  size-sealed :
      (b : B) (a : Aead) (nonce plain : String)
      → d.new_gcm b ≡ ok a
      → size nonce ≡ a.nonce_size
      → plain ≢ ""
      → leb (size (nonce +s a.seal nonce plain)) 28 ≡ false
  size-sealed b a nonce plain made n given = ground (
    arith,
    size-append nonce (a.seal nonce plain),
    lawful.seal_size b a nonce plain made,
    lawful.nonce_bytes b a made,
    size-pos plain given,
  )

  gcm_for-made : (key : String) (a : Aead) → gcm_for d key ≡ ok a → (b : B) × (d.new_gcm b ≡ ok a)
  gcm_for-made key a h = elim (Result-cases (d.new_cipher (derive_key d key))) [
    | inl (b, e) ↦ (b, ground (arith, e, h))
    | inr (m, e) ↦ ground (arith, e, h)
  ]

  decrypt-sealed :
      (key nonce plain : String) (a : Aead) (x x' : X)
      → gcm_for d key ≡ ok a
      → d.random a.nonce_size x ≡ (ok nonce, x')
      → plain ≢ ""
      → decrypt d (nonce +s a.seal nonce plain) key ≡ ok plain
  unfolding decrypt
  decrypt-sealed key nonce plain a x x' made drawn given =
      let (b, from) = gcm_for-made key a made in
      let n = lawful.random_size a.nonce_size x x' nonce drawn in
      rw (size-sealed b a nonce plain from n given, made)
        (unseal_with-sealed b a nonce plain from n)

  decrypt-encrypt :
      (key plain text : String) (x x' : X)
      → plain ≢ ""
      → encrypt d plain key x ≡ (ok text, x')
      → decrypt d text key ≡ ok plain
  unfolding encrypt
  decrypt-encrypt key plain text x x' given h = elim (Result-cases (gcm_for d key)) [
    | inr (m, e) ↦ ground (arith, e, h, ==-false plain "" given)
    | inl (a, e) ↦ elim (Result-cases (d.random a.nonce_size x).0) [
      | inr (m, e') ↦ ground (arith, e, e', h, ==-false plain "" given)
      | inl (nonce, e') ↦
          let same : nonce +s a.seal nonce plain ≡ text =
            ground (arith, e, e', h, ==-false plain "" given) in
          rw (sym same) (
            decrypt-sealed key nonce plain a x (d.random a.nonce_size x).1 e
              (ap (λ r. (r, (d.random a.nonce_size x).1)) e') given)
    ]
  ]

  module _ {A : Type 0} (c : Coding) (marshal : A → Result String)
      (unmarshal : String → Result A) where
    -- A value that EncodeValue has made a cookie of is what DecodeValue makes of the cookie with the
    -- same key, or with none both times, where base64 and the JSON of the value are read back and the
    -- JSON is not empty.
    pub decode_value-encode_value :
        (v : A) (text key raw : String) (x x' : X)
        → ((s : String) → c.decode (c.encode s) ≡ some s)
        → marshal v ≡ ok text
        → text ≢ ""
        → unmarshal text ≡ ok v
        → encode_value d c marshal unmarshal v key x ≡ (ok raw, x')
        → decode_value d c marshal unmarshal raw key ≡ ok v
    unfolding encode_value decode_value
    decode_value-encode_value v text key raw x x' inverse written given reads h =
        elim (Bool-cases (key == "")) [
          | inl bare ↦
              let same : c.encode (c.encode text) ≡ raw = ground (arith, written, bare, h) in
              rw (sym same, inverse (c.encode text), bare, inverse text, reads) refl
          | inr keyed ↦ elim (Result-cases (encrypt d text key x).0) [
            | inr (m, e) ↦ ground (arith, written, keyed, e, h)
            | inl (sealed, e) ↦
                let same : c.encode sealed ≡ raw = ground (arith, written, keyed, e, h) in
                let opens =
                  decrypt-encrypt key text sealed x (encrypt d text key x).1 given
                    (ap (λ r. (r, (encrypt d text key x).1)) e) in
                rw (sym same, inverse sealed, keyed, opens, reads) refl
          ]
        ]
