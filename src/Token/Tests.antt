-- ===== src/Token/Tests.antt =====
-- Validation of a token with an audience and a nonce.
mod Keys
use authsentinel.Base.{refl, ℕ, [], ◌∷◌, some, ok, err, true}
use authsentinel.Token.IdToken.{JwtDeps, JwtToken, validate_id_token, check_claims, build_principal}
use authsentinel.Token.IdToken.Accepts.{Verified, validate_id_token-Verified}
use authsentinel.Value.{str, arr, cons, nil, get}

abbrev signed_token : JwtToken
signed_token = record {
  claims = some (
      ("sub", str "ann")
      ∷ ("aud", arr (cons (str "api") (cons (str "app") nil)))
      ∷ ("nonce", str "n1")
      ∷ []);
  valid = true;
}

abbrev library : JwtDeps ℕ
library = record {
  get_jwks = λ _ x. (ok "keys", x);
  decode_jwks = λ _. ok [];
  raw_url_decode = λ _. err "no base64";
  jwt_parse = λ _ _ _ x. (ok signed_token, x);
}

validate_id_token-Verified_example :
    Verified library "raw" "https://idp" "app" "n1" 0 (build_principal signed_token.claims) 0
unfolding validate_id_token check_claims get
validate_id_token-Verified_example =
    validate_id_token-Verified library "raw" "https://idp" "app" "n1" 0
      (build_principal signed_token.claims) 0 refl
