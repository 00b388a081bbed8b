-- ===== src/Token/Tests/Keys.antt =====
-- A key set that is fetched, kept and fetched again.
use authsentinel.Base.{
  ◌≡◌, refl, ℕ, suc, [], ◌∷◌, some, true, ok, err, pos, add64, lookup, insert, if◌then◌else◌, ◌==◌,
}
use authsentinel.Agent.Flow.{World, run}
use authsentinel.Text.{trim_suffix, itoa}
use authsentinel.Token.Jwks.{Cache, JwksDeps, fetch_url, fetch_jwks_uri, cached, get_jwks}
use authsentinel.Token.IdToken.{JwtDeps, validate_id_token, check_claims, build_principal}
use authsentinel.Token.Source.{Trusted, validate_id_token-Trusted}

-- The clock goes on by one with every request.
abbrev source : JwksDeps ℕ
source = record {
  http_get = λ url x. (
    ok (record {
      status = if url == "https://idp/missing" then pos 404 else pos 200;
      body = ok (if url == "https://idp/jwks" then "keys" else "document");
    }),
    suc x,
  );
  parse_discovery = λ _. ok "https://idp/jwks";
  now = λ x. (pos x, x);
  cache_hit = λ _ x. (tt, x);
  cache_miss = λ _ x. (tt, x);
}

abbrev empty : World Cache ℕ
empty = record { store = []; env = 10 }

abbrev filled : Cache
filled = ("https://idp", record { keys = "keys"; exp = pos 112 }) ∷ []

fetch_test :
    get_jwks source (pos 100) "https://idp/" empty
    ≡ (ok "keys", record { store = filled; env = 12 })
unfolding get_jwks run trim_suffix cached lookup insert fetch_jwks_uri fetch_url add64
fetch_test = refl

hit_test :
    get_jwks source (pos 100) "https://idp" (record { store = filled; env = 111 })
    ≡ (ok "keys", record { store = filled; env = 111 })
unfolding get_jwks run trim_suffix cached lookup
hit_test = refl

expired_test :
    (get_jwks source (pos 100) "https://idp" (record { store = filled; env = 112 })).1.env ≡ 114
unfolding get_jwks run trim_suffix cached lookup insert fetch_jwks_uri fetch_url add64
expired_test = refl

status_test :
    (fetch_url source "https://idp/missing" 0).0 ≡ err "get https://idp/missing: status 404"
unfolding fetch_url itoa
status_test = refl

abbrev library : JwtDeps ℕ
library = record {
  get_jwks = λ _ x. (err "unused", x);
  decode_jwks = λ _. ok [];
  raw_url_decode = λ _. err "no base64";
  jwt_parse = λ _ _ _ x. (ok (record { claims = some []; valid = true }), x);
}

validate_id_token-Trusted_example :
    Trusted source (pos 100) library "raw" "https://idp/" "" "" empty (build_principal (some []))
unfolding get_jwks run trim_suffix cached lookup insert fetch_jwks_uri fetch_url add64
    validate_id_token check_claims
validate_id_token-Trusted_example =
    validate_id_token-Trusted source (pos 100) library "raw" "https://idp/" "" "" empty
      (record { store = filled; env = 12 }) (build_principal (some [])) refl
