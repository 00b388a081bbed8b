-- ===== src/Oidc.antt =====
-- internal/agent/oidc: the client of an OpenID provider. HTTP, JSON and the encoding of query parameters
-- are parameters over a state `X`. A request is its address and body; all bodies here are forms.
pub mod Discovered
pub mod Plugin
use authsentinel.Base.{
  Bool, true, false, ◌&&◌, ◌||◌, not, String, List, [], ◌∷◌, ◌++◌, Option, none, some, Result, ok,
  err, ℤ, pos, Dict, insert, eqb_ℤ, if◌then◌else◌, ◌==◌,
}
use authsentinel.Agent.Flow.{World, M, ◌>>=◌, pure, stop, checked, call, run, on_env}
use authsentinel.Text.{◌+s◌, trim_suffix, join, itoa}

-- The discovery document
pub record Discovery : Type 0 where
  pub issuer : String
  pub authorization_endpoint : String
  pub token_endpoint : String
  pub end_session_endpoint : String
  pub jwks_uri : String
  pub revocation_endpoint : String

pub record TokenResponse : Type 0 where
  pub access_token : String
  pub refresh_token : String
  pub id_token : String
  pub expires_in : ℤ
  pub token_type : String

-- A response, with the result of reading its body
pub record Answer : Type 0 where
  pub status : ℤ
  pub body : Result String

pub record OidcDeps (X : Type 0) : Type 0 where
  pub http_get : String → X → Result Answer × X
  pub post_form : String → String → X → Result Answer × X
  pub decode_discovery : String → Result Discovery
  pub decode_tokens : String → Result TokenResponse
  pub encode : Dict String → String

-- `discovery` is there once it was asked for, with its error where there was one.
pub record Client : Type 0 where
  pub issuer : String
  pub client_id : String
  pub client_secret : String
  pub redirect_uri : String
  pub scopes : List String
  pub audience : String
  pub discovery : Option (Result Discovery)

abbrev scopes_or_default : Option (List String) → List String
scopes_or_default none = "openid" ∷ "profile" ∷ []
scopes_or_default (some xs) = xs

-- NewClient; `none` stands for nil scopes
unfoldable pub new_client :
    String → String → String → String → Option (List String) → String → Client
unfolding trim_suffix
new_client issuer id secret redirect_uri scopes audience = record {
  issuer = trim_suffix issuer "/";
  client_id = id;
  client_secret = secret;
  redirect_uri = redirect_uri;
  scopes = scopes_or_default scopes;
  audience = audience;
  discovery = none;
}

abbrev pub when_set : String → String → Dict String → Dict String
when_set name value m = if value == "" then m else m ++ ((name, value) ∷ [])

module _ {X : Type 0} (d : OidcDeps X) where
  abbrev complete_discovery : Discovery → Result Discovery
  complete_discovery disc =
      if disc.authorization_endpoint == "" || disc.token_endpoint == ""
      then err "discovery: missing required endpoints"
      else ok disc

  abbrev pub then_complete : Result Discovery → Result Discovery
  then_complete (err e) = err e
  then_complete (ok disc) = complete_discovery disc

  abbrev pub decoded : Result String → Result Discovery
  decoded (err e) = err e
  decoded (ok text) = then_complete (d.decode_discovery text)

  abbrev pub document_of : String → Result Answer → Result Discovery
  document_of url (err e) = err e
  document_of url (ok resp) =
      if eqb_ℤ resp.status (pos 200)
      then decoded resp.body
      else err ("discovery " +s url +s ": status " +s itoa resp.status)

  unfoldable pub fetch_discovery : String → X → Result Discovery × X
  unfolding itoa
  fetch_discovery issuer x =
      let url = issuer +s "/.well-known/openid-configuration" in
      let (resp, x) = d.http_get url x in (document_of url resp, x)

  abbrev keep : Client → Result Discovery × X → Result Discovery × World Client X
  keep c (r, x) = (r, record { store = record c { discovery = some r }; env = x })

  abbrev discovery_by : Option (Result Discovery) → Client → X → Result Discovery × World Client X
  discovery_by none c x = keep c (fetch_discovery c.issuer x)
  discovery_by (some r) c x = (r, record { store = c; env = x })

  -- Discovery: `Once` runs the fetch at the first call only.
  unfoldable pub discovery : World Client X → Result Discovery × World Client X
  unfolding fetch_discovery
  discovery w = discovery_by w.store.discovery w.store w.env

  abbrev pub auth_params : Client → String → String → String → Dict String
  auth_params c state challenge nonce = when_set "audience" c.audience (
      ("response_type", "code")
      ∷ ("client_id", c.client_id)
      ∷ ("redirect_uri", c.redirect_uri)
      ∷ ("scope", join c.scopes " ")
      ∷ ("state", state)
      ∷ ("code_challenge", challenge)
      ∷ ("code_challenge_method", "S256")
      ∷ ("nonce", nonce)
      ∷ [])

  abbrev OidcFlow : Type 0 → Type 0 → Type 0
  OidcFlow R A = M (World Client X) (Result R) A

  auth_url_flow : String → String → String → OidcFlow String (Result String)
  auth_url_flow state challenge nonce = do
    disc ← checked err discovery
    c ← call (λ w. (w.store, w))
    pure (ok (disc.authorization_endpoint +s "?" +s d.encode (auth_params c state challenge nonce)))

  unfoldable pub auth_url :
      String → String → String → World Client X → Result String × World Client X
  unfolding auth_url_flow
  auth_url state challenge nonce = run (auth_url_flow state challenge nonce)

  abbrev tokens_of : String → ℤ → Result String → Result TokenResponse
  tokens_of what status (err e) = err e
  tokens_of what status (ok text) =
      if eqb_ℤ status (pos 200)
      then d.decode_tokens text
      else err ("token " +s what +s ": status " +s itoa status +s ": " +s text)

  -- A POST to the token endpoint
  token_flow : String → (Client → Dict String) → OidcFlow TokenResponse (Result TokenResponse)
  unfolding itoa
  token_flow what form = do
    disc ← checked err discovery
    c ← call (λ w. (w.store, w))
    resp ← checked err (
        on_env (
          d.post_form disc.token_endpoint
            (d.encode (when_set "client_secret" c.client_secret (form c)))))
    pure (tokens_of what resp.status resp.body)

  abbrev exchange_form : String → String → Client → Dict String
  exchange_form code verifier c =
      ("grant_type", "authorization_code")
      ∷ ("code", code)
      ∷ ("redirect_uri", c.redirect_uri)
      ∷ ("client_id", c.client_id)
      ∷ ("code_verifier", verifier)
      ∷ []

  unfoldable pub exchange : String → String → World Client X → Result TokenResponse × World Client X
  unfolding token_flow
  exchange code verifier = run (token_flow "exchange" (exchange_form code verifier))

  abbrev refresh_form : String → Client → Dict String
  refresh_form token c =
      ("grant_type", "refresh_token") ∷ ("refresh_token", token) ∷ ("client_id", c.client_id) ∷ []

  unfoldable pub refresh : String → World Client X → Result TokenResponse × World Client X
  unfolding token_flow
  refresh token = run (token_flow "refresh" (refresh_form token))

  abbrev end_session_of : Discovery → String → String → String
  end_session_of disc hint target =
      let q =
        d.encode (when_set "post_logout_redirect_uri" target (when_set "id_token_hint" hint [])) in
      if disc.end_session_endpoint == ""
      then ""
      else if q == ""
      then disc.end_session_endpoint
      else trim_suffix disc.end_session_endpoint "/" +s "?" +s q

  abbrev end_session_answer : String → String → Result Discovery → Result String
  end_session_answer hint target (err e) = err e
  end_session_answer hint target (ok disc) = ok (end_session_of disc hint target)

  unfoldable pub end_session_url : String → String → World Client X → Result String × World Client X
  unfolding trim_suffix
  end_session_url hint target w =
      let (disc, w) = discovery w in (end_session_answer hint target disc, w)

  abbrev text_or_empty : Result String → String
  text_or_empty (err _) = ""
  text_or_empty (ok text) = text

  revoked : ℤ → Result String → Result (Unit {0})
  unfolding itoa
  revoked status body =
      if eqb_ℤ status (pos 200) || eqb_ℤ status (pos 204)
      then ok tt
      else err ("revoke: status " +s itoa status +s ": " +s text_or_empty body)

  revoke_flow : String → OidcFlow (Unit {0}) (Result (Unit {0}))
  unfolding revoked
  revoke_flow token = do
    disc ← checked err discovery
    _ ← if disc.revocation_endpoint == "" then stop (ok tt) else pure (tt {0})
    c ← call (λ w. (w.store, w))
    resp ← checked err (
        on_env (
          d.post_form disc.revocation_endpoint (
            d.encode (
              when_set "client_secret" c.client_secret (
                ("token", token)
                ∷ ("token_type_hint", "refresh_token")
                ∷ ("client_id", c.client_id)
                ∷ [])))))
    pure (revoked resp.status resp.body)

  unfoldable pub revoke : String → World Client X → Result (Unit {0}) × World Client X
  unfolding revoke_flow
  revoke token = run (revoke_flow token)
