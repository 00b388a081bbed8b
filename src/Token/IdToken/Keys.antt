-- ===== src/Token/IdToken/Keys.antt =====
-- Key selection from a JWKS: jwkKey, keyFuncFromJWKS and ecPubKeyFromJWK of
-- pkg/token/validate_idtoken.go.
use authsentinel.Base.{
  ℕ, ◌*◌, ◌+◌, ◌||◌, not, String, List, [], ◌∷◌, Option, none, some, Result, ok, err, leb,
  if◌then◌else◌, ◌==◌, Dict,
}
use authsentinel.Text.{◌+s◌}
use authsentinel.Value.{Value, str, get}

pub record JwkKey : Type 0 where
  pub kid : String
  pub kty : String
  pub n : String
  pub e : String
  pub crv : String
  pub x : String
  pub y : String

pub data Curve : Type 0 where
  p256 p384 p521 : Curve

-- rsa.PublicKey and ecdsa.PublicKey
pub data PublicKey : Type 0 where
  rsa : ℕ → ℕ → PublicKey
  ecdsa : Curve → ℕ → ℕ → PublicKey

-- big.Int.SetBytes: the bytes as a big-endian number
unfoldable pub set_bytes : ℕ → List ℕ → ℕ
set_bytes acc [] = acc
set_bytes acc (b ∷ bs) = set_bytes (acc * 256 + b) bs

abbrev curve_of : String → Option Curve
curve_of crv =
    if crv == "P-256"
    then some p256
    else if crv == "P-384"
    then some p384
    else if crv == "P-521"
    then some p521
    else none

-- The decoder of base64.RawURLEncoding
module _ (raw_url_decode : String → Result (List ℕ)) where
  abbrev rsa_of : Result (List ℕ) → Result (List ℕ) → Result PublicKey
  rsa_of (err m) _ = err m
  rsa_of (ok n) (err m) = err m
  rsa_of (ok n) (ok e) =
      let exponent = set_bytes 0 e in
      if leb exponent 2147483647
      then ok (rsa (set_bytes 0 n) exponent)
      else err "token: exponent too large"

  abbrev ec_at : Curve → Result (List ℕ) → Result (List ℕ) → Result PublicKey
  ec_at c (err m) _ = err m
  ec_at c (ok x) (err m) = err m
  ec_at c (ok x) (ok y) = ok (ecdsa c (set_bytes 0 x) (set_bytes 0 y))

  unfoldable pub ec_pub_key_from_jwk : String → String → String → Result PublicKey
  unfolding set_bytes
  ec_pub_key_from_jwk crv x y = elim (curve_of crv) [
    | none ↦ err ("token: unsupported EC curve " +s crv)
    | some c ↦ ec_at c (raw_url_decode x) (raw_url_decode y)
  ]

  -- One round of the loop over the set: `none` is `continue`.
  unfoldable pub try_key : String → JwkKey → Option (Result PublicKey)
  unfolding ec_pub_key_from_jwk
  try_key kid k =
      if not (k.kid == kid)
      then none
      else if k.kty == "RSA"
      then if k.n == "" || k.e == ""
        then none
        else some (rsa_of (raw_url_decode k.n) (raw_url_decode k.e))
      else if k.kty == "EC"
      then if k.crv == "" || (k.x == "" || k.y == "")
        then none
        else some (ec_pub_key_from_jwk k.crv k.x k.y)
      else none

  unfoldable pub select_key : String → List JwkKey → Result PublicKey
  select_key kid [] = err ("token: no key found for kid " +s kid)
  select_key kid (k ∷ ks) = elim (try_key kid k) [ none ↦ select_key kid ks | some r ↦ r ]

  -- The header of the token, and the JWKS as decoded from JSON.
  unfoldable pub key_func : Result (List JwkKey) → Dict Value → Result PublicKey
  unfolding select_key get
  key_func (err m) header = err m
  key_func (ok keys) header = elim (get "kid" (some header)) [
    | some (str kid) ↦ select_key kid keys
    | _ ↦ err "token: missing kid in header"
  ]
