-- ===== src/Agent/Login.antt =====
-- LoginStart and LoginEnd of internal/agent/service/service.go
pub mod Authenticated
pub mod Started
pub mod Store
pub mod Once
pub mod Opened
pub mod Laws
use authsentinel.Base.{
  ℕ, Bool, true, false, ◌||◌, not, String, List, Option, none, some, Result, ok, err, ℤ, pos, Dict,
  [], add64, leb_ℤ, insert, is_empty, if◌then◌else◌, ◌==◌,
}
use authsentinel.Agent.Config.{Config}
use authsentinel.Agent.Deps.{Deps, Outside, Stores, ProviderTokens, Webhook}
use authsentinel.Agent.Flow.{
  World, Flow, M, ◌>>=◌, ◌>>◌, pure, stop, checked, call, run, on_store, on_env,
}
use authsentinel.Agent.Pkce.{Pkce, generate_pkce, generate_state, generate_session_id}
use authsentinel.Agent.Redirect.{validate_redirect}
use authsentinel.Session.{Session, PkceState}
use authsentinel.Text.{◌+s◌}
use authsentinel.Token.Claims.{Principal}
use authsentinel.Token.IdToken.{validate_id_token}
use authsentinel.Value.{Value, Claims, get, string_of, str, strs}

pub record LoginEndRequest : Type 0 where
  pub code : String
  pub state : String
  pub error : String
  pub host : String

pub record LoginEndResponse : Type 0 where
  pub redirect_url : String
  pub set_cookie_value : String
  pub clear_cookie : Bool

module _ {S X : Type 0} (d : Deps S X) (cfg : Config) where
  open d use {stores, outside, cookie}

  abbrev pub validated : String → String
  validated target =
      validate_redirect d.url_parse target cfg.app_base_url cfg.allowed_redirect_origins
        cfg.allowed_redirect_paths

  abbrev pub validated_or_base : String → String
  validated_or_base target = if validated target == "" then cfg.app_base_url else validated target

  login_start_flow : String → M (World S X) (Result String) (Result String)
  login_start_flow redirect_to = do
    pkce ← checked err (on_env (generate_pkce outside))
    state ← checked err (on_env (generate_state outside))
    _ ← checked err (
        on_store (
          stores.pkce_set state
            (record {
              state = state;
              code_verifier = pkce.verifier;
              code_challenge = pkce.challenge;
              nonce = pkce.nonce;
              redirect_to = validated_or_base redirect_to;
            })
            cfg.session_pkce_ttl_seconds))
    auth_url ← checked err (on_env (outside.authorization_url state pkce.challenge pkce.nonce))
    pure (ok auth_url)

  -- The address of the provider's login page, or an error.
  unfoldable pub login_start : String → World S X → Result String × World S X
  unfolding login_start_flow
  login_start redirect_to = run (login_start_flow redirect_to)

  abbrev pub error_redirect : Result LoginEndResponse
  error_redirect = ok (record {
    redirect_url = cfg.app_base_url +s cfg.login_error_redirect_path;
    set_cookie_value = "";
    clear_cookie = true;
  })

  -- The expiry of fresh tokens: 24 hours from now where the provider names none.
  unfoldable pub expiry : {R : Type 0} → ProviderTokens → M (World S X) R ℤ
  expiry tokens = do
    now ← call (on_env outside.now)
    if leb_ℤ tokens.expires_in (pos 0)
        then (do later ← call (on_env outside.now); pure (add64 later (pos 86400)))
        else pure (add64 now tokens.expires_in)

  abbrev pub audience : String
  audience = if cfg.oidc_audience == "" then cfg.oidc_client_id else cfg.oidc_audience

  abbrev dict_of : Claims → Dict Value
  dict_of none = []
  dict_of (some m) = m

  -- The claims that a new session keeps.
  unfoldable pub session_claims : Principal → Claims
  unfolding insert
  session_claims p =
      let claims = insert "sub" (str p.subject) (dict_of p.claims) in
      some (if is_empty p.roles then claims else insert "roles" (strs p.roles) claims)

  pub notify : LoginEndRequest → Session → Principal → World S X → Unit {0} × World S X
  unfolding get
  notify req sess p w =
      if cfg.post_login_webhook_url == ""
      then (tt, w)
      else on_env
          (outside.post_webhook cfg.post_login_webhook_url (record {
            session_id = sess.id;
            subject = p.subject;
            email = string_of (get "email" sess.claims);
            claims = sess.claims;
            host = req.host;
          }))
          w

  abbrev EndFlow : Type 0 → Type 0
  EndFlow = M (World S X) (Result LoginEndResponse)

  consume : String → Option PkceState → EndFlow PkceState
  consume state none = stop error_redirect
  consume state (some p) = do _ ← call (on_store (stores.pkce_delete state)); pure p

  -- The PKCE state of the request, which is deleted when it is found.
  take_pkce : String → EndFlow PkceState
  unfolding consume
  take_pkce state = do
    found ← checked (λ _. error_redirect) (on_store (stores.pkce_get state))
    consume state found

  -- The code is exchanged for tokens, and the ID token among them is validated.
  pub authenticate : String → PkceState → EndFlow (ProviderTokens × Principal)
  authenticate code p = do
    tokens ←
        checked (λ _. error_redirect)
          (on_env (outside.exchange_code code p.code_verifier cfg.oidc_redirect_uri))
    principal ←
        checked (λ _. error_redirect)
          (on_env (validate_id_token outside.jwt tokens.id_token cfg.oidc_issuer audience p.nonce))
    pure (tokens, principal)

  pub new_session : ProviderTokens → Principal → EndFlow Session
  unfolding expiry
  new_session tokens principal = do
    expires_at ← expiry tokens
    id ← checked err (on_env (generate_session_id outside))
    pure (record {
      id = id;
      access_token = tokens.access_token;
      refresh_token = tokens.refresh_token;
      id_token = tokens.id_token;
      expires_at = expires_at;
      claims = session_claims principal;
      tenant_context = none;
    })

  -- The session is stored, the webhook is called, and the session's cookie is made.
  open_session :
      LoginEndRequest → PkceState → Principal → Session → EndFlow (Result LoginEndResponse)
  unfolding notify
  open_session req p principal sess = do
    _ ← checked err (on_store (stores.session_set sess.id sess cfg.session_ttl_seconds))
    _ ← call (notify req sess principal)
    value ← checked err (λ w. (cookie.encode sess.id, w))
    pure (
        ok (record {
          redirect_url = validated_or_base p.redirect_to;
          set_cookie_value = value;
          clear_cookie = false;
        }))

  unfoldable pub complete : LoginEndRequest → EndFlow (Result LoginEndResponse)
  unfolding take_pkce authenticate new_session open_session
  complete req = do
    p ← take_pkce req.state
    auth ← authenticate req.code p
    sess ← new_session auth.0 auth.1
    open_session req p auth.1 sess

  unfoldable pub login_end_flow : LoginEndRequest → EndFlow (Result LoginEndResponse)
  unfolding complete
  login_end_flow req =
      if not (req.error == "")
      then stop error_redirect
      else if req.state == "" || req.code == ""
      then stop error_redirect
      else complete req

  unfoldable pub login_end : LoginEndRequest → World S X → Result LoginEndResponse × World S X
  unfolding login_end_flow
  login_end req = run (login_end_flow req)
