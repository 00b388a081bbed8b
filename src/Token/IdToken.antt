-- ===== src/Token/IdToken.antt =====
-- ValidateIDToken of pkg/token/validate_idtoken.go. JSON decoding of the JWKS, base64 decoding and
-- the JWT library (signature, expiry, issuer) are parameters.
pub mod Keys
pub mod Accepts
use authsentinel.Base.{
  ℕ, Bool, true, false, ◌&&◌, not, String, List, [], ◌∷◌, Option, none, some, Result, ok, err, ℤ,
  Dict, any, if◌then◌else◌, ◌==◌,
}
use authsentinel.Text.{◌+s◌}
use authsentinel.Value.{Value, Claims, str, arr, float, get, strings, string_of, truncate}
use authsentinel.Token.Claims.{Principal, roles_of}
use Keys.{JwkKey, PublicKey, key_func}

-- What the JWT library returns: `none` for claims that are no jwt.MapClaims.
pub record JwtToken : Type 0 where
  pub claims : Claims
  pub valid : Bool

-- `X` is the state of everything outside the process: network, clock, random source.
pub record JwtDeps (X : Type 0) : Type 0 where
  pub get_jwks : String → X → Result String × X
  pub decode_jwks : String → Result (List JwkKey)
  pub raw_url_decode : String → Result (List ℕ)
  pub jwt_parse : String → (Dict Value → Result PublicKey) → String → X → Result JwtToken × X

-- aud is one string or an array
abbrev pub aud_valid : Option Value → String → Bool
aud_valid (some (str v)) audience = v == audience
aud_valid (some (arr vs)) audience = any (λ a. a == audience) (strings vs)
aud_valid _ audience = false

-- The parser makes numbers float64; the case of a json.Number is left out.
abbrev pub exp_of : Option Value → Option ℤ
exp_of (some (float t)) = some (truncate t)
exp_of _ = none

abbrev pub build_principal : Claims → Principal
build_principal claims = record {
  subject = string_of (get "sub" claims);
  scopes = [];
  roles = roles_of claims;
  claims = claims;
  expires_at = exp_of (get "exp" claims);
  access_token = "";
  tenant_context = none;
}

unfoldable pub check_claims : JwtToken → String → String → Result Principal
check_claims token audience nonce = elim token.claims [
  | none ↦ err "token: invalid claims"
  | some claims ↦
      if not token.valid
      then err "token: invalid claims"
      else if not (audience == "") && not (aud_valid (get "aud" (some claims)) audience)
      then err "token: audience mismatch"
      else if not (nonce == "") && not (string_of (get "nonce" (some claims)) == nonce)
      then err "token: nonce mismatch"
      else ok (build_principal (some claims))
]

unfoldable pub check_parsed :
    {X : Type 0} → String → String → Result JwtToken × X → Result Principal × X
check_parsed audience nonce (err e, x) = (err ("token: parse: " +s e), x)
check_parsed audience nonce (ok token, x) = (check_claims token audience nonce, x)

module _ {X : Type 0} (d : JwtDeps X) where
  unfoldable pub parse_with :
      String → String → String → String → Result String × X → Result Principal × X
  unfolding check_parsed
  parse_with raw issuer audience nonce (err e, x) = (err ("token: get jwks: " +s e), x)
  parse_with raw issuer audience nonce (ok jwks, x) =
      check_parsed audience nonce
        (d.jwt_parse raw (key_func d.raw_url_decode (d.decode_jwks jwks)) issuer x)

  -- The JWKS is fetched, the token is parsed with its keys, and its claims are checked.
  unfoldable pub validate_id_token : String → String → String → String → X → Result Principal × X
  unfolding parse_with
  validate_id_token raw issuer audience nonce x =
      parse_with raw issuer audience nonce (d.get_jwks issuer x)
