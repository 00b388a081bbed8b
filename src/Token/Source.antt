-- ===== src/Token/Source.antt =====
-- ID tokens validated with the keys of HTTPJWKSSource: pkg/token/validate_idtoken.go over
-- pkg/token/jwks_http.go, as cmd/agent/main.go connects them.
use authsentinel.Base.{◌≡◌, ap, String, ok, ℤ}
use authsentinel.Agent.Flow.{World, on_env}
use authsentinel.Text.{trim_suffix}
use authsentinel.Token.Claims.{Principal}
use authsentinel.Token.IdToken.{JwtDeps, JwtToken, validate_id_token}
use authsentinel.Token.IdToken.Accepts.{Accepted, validate_id_token-Verified}
use authsentinel.Token.IdToken.Keys.{key_func}
use authsentinel.Token.Jwks.{Cache, JwksDeps, get_jwks}
use authsentinel.Token.Jwks.Origin.{Origin, get_jwks-Origin}

-- The validation of ID tokens over a state outside of the process, with its own cache of key sets
abbrev pub with_source : {X : Type 0} → JwksDeps X → ℤ → JwtDeps X → JwtDeps (World Cache X)
with_source source ttl library = record {
  get_jwks = get_jwks source ttl;
  decode_jwks = library.decode_jwks;
  raw_url_decode = library.raw_url_decode;
  jwt_parse = λ raw keys issuer. on_env (library.jwt_parse raw keys issuer);
}

module _ {X : Type 0} (source : JwksDeps X) (ttl : ℤ) (library : JwtDeps X)
    (raw issuer audience nonce : String) where
  -- The token was verified with a key set of its issuer, from the cache or just discovered.
  pub record Trusted (w : World Cache X) (p : Principal) : Type 0 where
    pub keys : String
    pub token : JwtToken
    pub fetched : World Cache X
    pub after : World Cache X
    pub origin : Origin source ttl (trim_suffix issuer "/") keys w
    pub verified :
        on_env
          (library.jwt_parse raw
            (key_func library.raw_url_decode (library.decode_jwks keys))
            issuer)
          fetched
        ≡ (ok token, after)
    pub accepted : Accepted token audience nonce p

  -- An ID token is accepted only if the JWT library verified it with keys that were in the cache for its
  -- issuer and had not expired, or were fetched by this call from where the issuer's discovery document
  -- says, and its aud and nonce claims agree with a non-empty audience and nonce asked for.
  pub validate_id_token-Trusted :
      (w w' : World Cache X) (p : Principal)
      → validate_id_token (with_source source ttl library) raw issuer audience nonce w ≡ (ok p, w')
      → Trusted w p
  validate_id_token-Trusted w w' p h =
      let v =
        validate_id_token-Verified (with_source source ttl library) raw issuer audience nonce w p w'
          h in
      record {
        keys = v.jwks;
        token = v.token;
        fetched = v.fetched;
        after = w';
        origin = get_jwks-Origin source ttl issuer v.jwks w (ap (λ r. r.0) v.keys_fetched);
        verified = v.parsed;
        accepted = v.accepted;
      }
