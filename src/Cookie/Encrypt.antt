-- ===== src/Cookie/Encrypt.antt =====
-- pkg/cookie/encrypt.go, and EncodeValue and DecodeValue of codec.go. A slice of bytes is a text;
-- AES-GCM, SHA-256, the random source and encoding/json are parameters.
pub mod Roundtrip
use authsentinel.Base.{
  ℕ, zero, suc, String, Option, none, some, Result, ok, err, leb, eqb, if◌then◌else◌, ◌==◌,
}
use authsentinel.Cookie.{Coding}
use authsentinel.Text.{◌+s◌}

-- The number of bytes, and the bytes before and from a position
unfoldable pub size : String → ℕ
size String.[] = 0
size (String.◌∷◌ c s) = suc (size s)

unfoldable pub take : ℕ → String → String
take zero s = ""
take (suc n) String.[] = ""
take (suc n) (String.◌∷◌ c s) = String.◌∷◌ c (take n s)

unfoldable pub drop : ℕ → String → String
drop zero s = s
drop (suc n) String.[] = ""
drop (suc n) (String.◌∷◌ c s) = drop n s

-- cipher.AEAD; `seal` returns the ciphertext and the tag
pub record Aead : Type 0 where
  pub nonce_size : ℕ
  pub seal : String → String → String
  pub unseal : String → String → Option String

-- aes.NewCipher, cipher.NewGCM, sha256.Sum256 and io.ReadFull on the random source, whose state is `X`
pub record Crypto (B X : Type 0) : Type 0 where
  pub new_cipher : String → Result B
  pub new_gcm : B → Result Aead
  pub sha256 : String → String
  pub random : ℕ → X → Result String × X

abbrev pub decrypt_failed : String
decrypt_failed = "cookie: decrypt failed"

abbrev pub decode_failed : String
decode_failed = "cookie: decode failed"

module _ {B X : Type 0} (d : Crypto B X) where
  unfoldable pub derive_key : String → String
  unfolding size
  derive_key key = if eqb (size key) 32 then key else d.sha256 key

  abbrev gcm_of : Result B → Result Aead
  gcm_of (err e) = err e
  gcm_of (ok b) = d.new_gcm b

  abbrev pub gcm_for : String → Result Aead
  gcm_for key = gcm_of (d.new_cipher (derive_key key))

  abbrev sealed : Aead → String → Result String × X → Result String × X
  sealed a plain (err e, x) = (err e, x)
  sealed a plain (ok nonce, x) = (ok (nonce +s a.seal nonce plain), x)

  abbrev pub seal_with : Result Aead → String → X → Result String × X
  seal_with (err e) plain x = (err e, x)
  seal_with (ok a) plain x = sealed a plain (d.random a.nonce_size x)

  unfoldable pub encrypt : String → String → X → Result String × X
  unfolding derive_key
  encrypt plain key x = if plain == "" then (ok "", x) else seal_with (gcm_for key) plain x

  abbrev opened : Option String → Result String
  opened none = err decrypt_failed
  opened (some plain) = ok plain

  abbrev pub unseal_with : Result Aead → String → Result String
  unseal_with (err e) text = err e
  unseal_with (ok a) text = opened (a.unseal (take a.nonce_size text) (drop a.nonce_size text))

  unfoldable pub decrypt : String → String → Result String
  unfolding derive_key size take drop
  decrypt text key =
      if leb (size text) 28 then err decrypt_failed else unseal_with (gcm_for key) text

  module _ {A : Type 0} (c : Coding) (marshal : A → Result String)
      (unmarshal : String → Result A) where
    abbrev encoded : Result String × X → Result String × X
    encoded (err e, x) = (err e, x)
    encoded (ok text, x) = (ok (c.encode text), x)

    abbrev pub marshalled : String → Result String → X → Result String × X
    marshalled key (err e) x = (err e, x)
    marshalled key (ok text) x =
        if key == "" then (ok (c.encode (c.encode text)), x) else encoded (encrypt text key x)

    unfoldable pub encode_value : A → String → X → Result String × X
    unfolding encrypt
    encode_value v key x = marshalled key (marshal v) x

    abbrev or_failed : Option String → Result String
    or_failed none = err decode_failed
    or_failed (some text) = ok text

    abbrev read : Result A → Result A
    read (ok v) = ok v
    read (err _) = err decode_failed

    abbrev pub unmarshalled : Result String → Result A
    unmarshalled (err e) = err e
    unmarshalled (ok text) = read (unmarshal text)

    abbrev pub undecoded : String → Option String → Result A
    undecoded key none = err decode_failed
    undecoded key (some text) =
        unmarshalled (if key == "" then or_failed (c.decode text) else decrypt text key)

    unfoldable pub decode_value : String → String → Result A
    unfolding decrypt
    decode_value raw key = undecoded key (c.decode raw)
