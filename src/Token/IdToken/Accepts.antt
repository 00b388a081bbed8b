-- ===== src/Token/IdToken/Accepts.antt =====
-- What an accepted ID token has been checked for.
use authsentinel.Base.{◌≡◌, refl, ◌∙◌, ap, ◌⊎◌, true, String, Result, ok, err, arith, eq_iff}
use authsentinel.Token.Claims.{Principal}
use authsentinel.Token.IdToken.{
  JwtToken, JwtDeps, aud_valid, build_principal, check_claims, check_parsed, parse_with,
  validate_id_token,
}
use authsentinel.Token.IdToken.Keys.{key_func}
use authsentinel.Value.{get, string_of}

-- The audience and the nonce of a token agree with what was asked for.
pub record Accepted (token : JwtToken) (audience nonce : String) (p : Principal) : Type 0 where
  pub valid : token.valid ≡ true
  pub audience_ok : (audience ≡ "") ⊎ (aud_valid (get "aud" token.claims) audience ≡ true)
  pub nonce_ok : (nonce ≡ "") ⊎ (string_of (get "nonce" token.claims) ≡ nonce)
  pub built : p ≡ build_principal token.claims

pub check_claims-Accepted :
    (token : JwtToken) (audience nonce : String) (p : Principal)
    → check_claims token audience nonce ≡ ok p
    → Accepted token audience nonce p
unfolding check_claims
check_claims-Accepted token audience nonce p h = ground (
  arith,
  eq_iff audience "",
  eq_iff nonce "",
  eq_iff (string_of (get "nonce" token.claims)) nonce,
)

module _ {X : Type 0} (d : JwtDeps X) (raw issuer audience nonce : String) where
  -- How an accepted token was obtained: the issuer's key set verified it.
  pub record Verified (x : X) (p : Principal) (x' : X) : Type 0 where
    pub jwks : String
    pub token : JwtToken
    pub fetched : X
    pub keys_fetched : d.get_jwks issuer x ≡ (ok jwks, fetched)
    pub parsed :
        d.jwt_parse raw (key_func d.raw_url_decode (d.decode_jwks jwks)) issuer fetched
        ≡ (ok token, x')
    pub accepted : Accepted token audience nonce p

  parsed-Verified :
      (x : X) (jwks : String) (fetched : X)
      → d.get_jwks issuer x ≡ (ok jwks, fetched)
      → (o : Result JwtToken × X)
      → d.jwt_parse raw (key_func d.raw_url_decode (d.decode_jwks jwks)) issuer fetched ≡ o
      → {p : Principal} {x' : X} → check_parsed audience nonce o ≡ (ok p, x')
      → Verified x p x'
  unfolding check_parsed
  parsed-Verified x jwks fetched got (err e, x₁) same h = absurd (ground arith)
  parsed-Verified x jwks fetched got (ok token, x₁) same {p} {x'} h = record {
    jwks = jwks;
    token = token;
    fetched = fetched;
    keys_fetched = got;
    parsed = same ∙ ap (λ r. (ok token, r.1)) h;
    accepted = check_claims-Accepted token audience nonce p (ap (λ r. r.0) h);
  }

  fetched-Verified :
      (x : X) (o : Result String × X)
      → d.get_jwks issuer x ≡ o
      → {p : Principal} {x' : X} → parse_with d raw issuer audience nonce o ≡ (ok p, x')
      → Verified x p x'
  unfolding parse_with
  fetched-Verified x (err e, x₁) same h = absurd (ground arith)
  fetched-Verified x (ok jwks, x₁) same h = parsed-Verified x jwks x₁ same _ refl h

  -- An ID token is accepted only if the JWT library verified it with the keys that the issuer's key
  -- set holds, and its aud and nonce claims agree with a non-empty audience and nonce asked for; the
  -- principal is then the one that its claims describe.
  pub validate_id_token-Verified :
      (x : X) (p : Principal) (x' : X)
      → validate_id_token d raw issuer audience nonce x ≡ (ok p, x')
      → Verified x p x'
  unfolding validate_id_token
  validate_id_token-Verified x p x' h = fetched-Verified x _ refl h
