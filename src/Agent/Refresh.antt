-- ===== src/Agent/Refresh.antt =====
-- Refresh of internal/agent/service/service.go
pub mod Laws
pub mod Refreshed
use authsentinel.Base.{
  Bool, true, false, not, String, Option, none, some, Result, ok, err, ℤ, if◌then◌else◌, ◌==◌,
}
use authsentinel.Agent.Config.{Config}
use authsentinel.Agent.Deps.{Deps, ProviderTokens}
use authsentinel.Agent.Flow.{
  World, M, ◌>>=◌, pure, stop, checked, call, run, deferred, on_store, on_env,
}
use authsentinel.Agent.Login.{audience, expiry}
use authsentinel.Session.{Session, needs_refresh}
use authsentinel.Text.{◌+s◌}
use authsentinel.Token.Claims.{Principal}
use authsentinel.Token.IdToken.{validate_id_token}
use authsentinel.Value.{Claims}

pub record RefreshResponse : Type 0 where
  pub set_cookie_value : String
  pub refreshed : Bool

abbrev pub unchanged : Result RefreshResponse
unchanged = ok (record { set_cookie_value = ""; refreshed = false })

module _ {S X : Type 0} (d : Deps S X) (cfg : Config) where
  open d use {stores, outside, cookie}

  abbrev RefreshFlow : Type 0 → Type 0
  RefreshFlow = M (World S X) (Result RefreshResponse)

  found : Option Session → RefreshFlow Session
  found none = stop (err "session not found")
  found (some sess) = pure sess

  locked : Result Bool → RefreshFlow (Unit {0})
  locked (ok true) = pure tt
  locked _ = stop unchanged

  abbrev or_old : Claims → Claims → Claims
  or_old old none = old
  or_old old (some m) = some m

  -- The claims of a valid new ID token replace the old ones.
  abbrev pub claims_after : Claims → Result Principal → Claims
  claims_after old (ok p) = or_old old p.claims
  claims_after old (err _) = old

  new_claims : Session → ProviderTokens → RefreshFlow Claims
  new_claims sess tokens = if tokens.id_token == "" then pure sess.claims else do
    principal ←
        call (
          on_env
            (validate_id_token outside.jwt tokens.id_token cfg.oidc_issuer (audience d cfg) ""))
    pure (claims_after sess.claims principal)

  -- The session with the new tokens; a token that the provider leaves out is kept.
  unfoldable pub with_tokens : Session → ProviderTokens → ℤ → Claims → Session
  with_tokens sess tokens expires_at claims = record sess {
    access_token = tokens.access_token;
    expires_at = expires_at;
    refresh_token = if tokens.refresh_token == "" then sess.refresh_token else tokens.refresh_token;
    id_token = if tokens.id_token == "" then sess.id_token else tokens.id_token;
    claims = claims;
  }

  -- What runs while the lock is held.
  exchange : String → Session → RefreshFlow (Result RefreshResponse)
  unfolding new_claims
  exchange id sess = do
    tokens ←
        checked (λ e. err ("refresh failed: " +s e))
          (on_env (outside.provider_refresh sess.refresh_token))
    expires_at ← expiry d cfg tokens
    claims ← new_claims sess tokens
    _ ← checked err (
        on_store (
          stores.session_set id (with_tokens sess tokens expires_at claims)
            cfg.session_ttl_seconds))
    value ← checked err (λ w. (cookie.encode id, w))
    pure (ok (record { set_cookie_value = value; refreshed = true }))

  unfoldable pub release : String → World S X → World S X
  release id w = (on_store (stores.lock_release id) w).1

  under_lock : String → Session → RefreshFlow (Result RefreshResponse)
  unfolding locked exchange
  under_lock id sess = do
    got ← call (on_store (stores.lock_obtain id cfg.session_refresh_lock_ttl_seconds))
    _ ← locked got
    deferred (release id) (exchange id sess)

  when_due : String → Session → ℤ → RefreshFlow (Result RefreshResponse)
  unfolding under_lock
  when_due id sess now =
      if needs_refresh sess now cfg.session_refresh_early_seconds
      then under_lock id sess
      else stop unchanged

  with_session : String → Session → RefreshFlow (Result RefreshResponse)
  unfolding when_due
  with_session id sess =
      if sess.refresh_token == ""
      then stop (err "no refresh token")
      else do now ← call (on_env outside.now); when_due id sess now

  unfoldable pub refresh_flow : String → RefreshFlow (Result RefreshResponse)
  unfolding with_session found
  refresh_flow session_cookie = if session_cookie == "" then stop (err "no session cookie") else do
    id ← checked (λ _. err "invalid cookie") (λ w. (cookie.decode session_cookie, w))
    o ← checked (λ _. err "session not found") (on_store (stores.session_get id))
    sess ← found o
    with_session id sess

  unfoldable pub refresh : String → World S X → Result RefreshResponse × World S X
  unfolding refresh_flow
  refresh session_cookie = run (refresh_flow session_cookie)
