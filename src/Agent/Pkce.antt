-- ===== src/Agent/Pkce.antt =====
-- internal/agent/oidc/pkce.go, and generateSessionID of internal/agent/service/service.go
use authsentinel.Base.{ℕ, String, List, Result, ok, err}
use authsentinel.Agent.Deps.{Outside}

pub record Pkce : Type 0 where
  pub verifier : String
  pub challenge : String
  pub nonce : String

module _ {X : Type 0} (o : Outside X) where
  abbrev pub challenge_of : String → String
  challenge_of verifier = o.raw_url_encode (o.sha256 verifier)

  abbrev encoded : Result (List ℕ) × X → Result String × X
  encoded (ok b, x) = (ok (o.raw_url_encode b), x)
  encoded (err e, x) = (err e, x)

  abbrev with_nonce : String → Result String × X → Result Pkce × X
  with_nonce verifier (ok nonce, x) =
      (ok (record { verifier = verifier; challenge = challenge_of verifier; nonce = nonce }), x)
  with_nonce verifier (err e, x) = (err e, x)

  abbrev with_verifier : Result String × X → Result Pkce × X
  with_verifier (ok verifier, x) = with_nonce verifier (encoded (o.random 16 x))
  with_verifier (err e, x) = (err e, x)

  unfoldable pub generate_pkce : X → Result Pkce × X
  generate_pkce x = with_verifier (encoded (o.random 32 x))

  unfoldable pub generate_state : X → Result String × X
  generate_state x = encoded (o.random 24 x)

  unfoldable pub generate_session_id : X → Result String × X
  generate_session_id x = encoded (o.random 24 x)
