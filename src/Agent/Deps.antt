-- ===== src/Agent/Deps.antt =====
-- What the agent service is given: the stores (pkg/session/store.go), the cookie manager
-- (pkg/cookie/manager.go), the provider plugin (pkg/pluginapi/pluginapi.go), ID token validation,
-- the clock and the random source.
pub mod Laws
pub mod Spec
use authsentinel.Base.{ℕ, Bool, String, List, Option, Result, ℤ}
use authsentinel.Agent.Redirect.{Url}
use authsentinel.Session.{Session, PkceState}
use authsentinel.Token.IdToken.{JwtDeps}
use authsentinel.Value.{Claims}

pub record ProviderTokens : Type 0 where
  pub access_token : String
  pub refresh_token : String
  pub id_token : String
  pub expires_in : ℤ

-- SessionStore, PKCEStore and RefreshLockStore, over one state `S`
pub record Stores (S : Type 0) : Type 0 where
  pub session_get : String → S → Result (Option Session) × S
  pub session_set : String → Session → ℤ → S → Result (Unit {0}) × S
  pub session_delete : String → S → Result (Unit {0}) × S
  pub pkce_get : String → S → Result (Option PkceState) × S
  pub pkce_set : String → PkceState → ℤ → S → Result (Unit {0}) × S
  pub pkce_delete : String → S → Result (Unit {0}) × S
  pub lock_obtain : String → ℤ → S → Result Bool × S
  pub lock_release : String → S → Result (Unit {0}) × S

-- The body of the post-login webhook
pub record Webhook : Type 0 where
  pub session_id : String
  pub subject : String
  pub email : String
  pub claims : Claims
  pub host : String

-- `X` is the state of everything outside the process and the stores.
pub record Outside (X : Type 0) : Type 0 where
  pub jwt : JwtDeps X
  pub authorization_url : String → String → String → X → Result String × X
  pub exchange_code : String → String → String → X → Result ProviderTokens × X
  pub provider_refresh : String → X → Result ProviderTokens × X
  pub end_session_url : String → String → X → Result String × X
  pub random : ℕ → X → Result (List ℕ) × X
  pub sha256 : String → List ℕ
  pub raw_url_encode : List ℕ → String
  pub now : X → ℤ × X
  pub post_webhook : String → Webhook → X → Unit {0} × X

pub record CookieManager : Type 0 where
  pub encode : String → Result String
  pub decode : String → Result String

pub record Deps (S X : Type 0) : Type 0 where
  pub stores : Stores S
  pub outside : Outside X
  pub cookie : CookieManager
  pub url_parse : String → Option Url
