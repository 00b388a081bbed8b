-- ===== src/Cookie.antt =====
-- pkg/cookie: SignedManager of signed.go. A slice of bytes is a text here. HMAC-SHA256 and the
-- base64 codec of encoding/base64 are parameters.
pub mod Signed
pub mod Model
pub mod Encrypt
pub mod Tests
use authsentinel.Base.{
  String, List, ◌∷◌, [], Bool, true, false, Option, none, some, Result, ok, err, if◌then◌else◌,
  ◌==◌,
}
use authsentinel.Text.{◌+s◌, cut}

pub record SignedManager : Type 0 where
  pub primary : String
  pub older : List String

abbrev pub invalid_signature : String
invalid_signature = "cookie: invalid signature"

-- `sign_with secret data`, and base64.URLEncoding
pub record Coding : Type 0 where
  pub sign_with : String → String → String
  pub encode : String → String
  pub decode : String → Option String

abbrev decoded : Option String → Result String
decoded none = err invalid_signature
decoded (some id) = ok id

module _ (c : Coding) where
  unfoldable pub encode : SignedManager → String → Result String
  encode m s =
      let payload = c.encode s in ok (payload +s "." +s c.encode (c.sign_with m.primary payload))

  unfoldable pub decode_payload : String → Result String
  decode_payload payload = decoded (c.decode payload)

  -- The loop over the older secrets
  unfoldable pub try_older : List String → String → String → Result String
  unfolding decode_payload
  try_older [] payload sig = err invalid_signature
  try_older (old ∷ more) payload sig =
      let rest = try_older more payload sig in
      if sig == c.sign_with old payload then decode_payload payload else rest

  abbrev pub verify : SignedManager → String → Option String → Result String
  verify m payload none = err invalid_signature
  verify m payload (some sig) =
      if sig == c.sign_with m.primary payload
      then decode_payload payload
      else try_older m.older payload sig

  abbrev decode_parts : SignedManager → Option (String × String) → Result String
  decode_parts m none = err invalid_signature
  decode_parts m (some (payload, sig)) = verify m payload (c.decode sig)

  unfoldable pub decode : SignedManager → String → Result String
  unfolding cut try_older
  decode m raw = decode_parts m (cut b'.' raw)
