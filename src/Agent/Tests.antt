-- ===== src/Agent/Tests.antt =====
-- Small stores kept in dictionaries, a provider, and the state of a login in progress.
mod Logins
mod Requests
pub mod Pages
mod OverRedis
mod Browser
mod WithOidc
use Prim.Native.String.{char_at}
use authsentinel.Base.{
  ◌≡◌, sym, ap, ◌∙◌, refl, ok_injective, lookup-inserted, lookup-deleted, refl, ◌≢◌, ◌↔◌,
  ne_of_==-false, ℕ, suc, Bool, true, false, not, String, List, [], ◌∷◌, Option, none, some, Result,
  ok, err, succeeded, pos, Dict, lookup, insert, delete, if◌then◌else◌,
}
use authsentinel.Agent.Config.{Config, lax, validate, accepted, key_layout}
use authsentinel.Agent.Config.Keys.{key_layout-distinct}
use authsentinel.Agent.Config.Valid.{Valid, validate-Valid}
use authsentinel.Agent.Deps.Laws.{SessionLaws, CookieLaws, PkceLaws}
use authsentinel.Agent.Login.Opened.{login_end-resolve, attach_tenant_context-resolve}
use authsentinel.Agent.Login.Started.{Started, login_start-Started}
use authsentinel.Text.Laws.{strip-append}
use authsentinel.Agent.Deps.{Deps, Stores, Outside}
use authsentinel.Agent.ErrorMap.{status_for, new_not_found, new_unauthorized, is_client_mistake}
use authsentinel.Agent.ErrorMap.Statuses.{mentions_not_found, status_for-constructors}
use authsentinel.Agent.Flow.{World, run}
use authsentinel.Agent.Redirect.{Url, validate_redirect}
use authsentinel.Agent.Redirect.Safe.{Permitted, validate_redirect-Permitted}
use authsentinel.Agent.Login.{
  LoginEndRequest, LoginEndResponse, login_end, expiry, login_start, session_claims,
}
use authsentinel.Agent.Login.Authenticated.{Authenticated, login_end-Authenticated}
use authsentinel.Agent.Refresh.{refresh}
use authsentinel.Agent.Refresh.Refreshed.{Refreshed, refresh-Refreshed}
use authsentinel.Agent.Sessions.{session_to_user, session, resolve, or_made, attach_tenant_context}
use authsentinel.Agent.Sessions.Laws.{session-user, session-resolve}
use authsentinel.Agent.Logout.{LogoutRequest, base_of, listed, refused, logout}
use authsentinel.Agent.Logout.Csrf.{refused_iff, logout_outcome}
use authsentinel.Agent.Pkce.{generate_session_id, generate_pkce, generate_state}
use authsentinel.Session.{
  needs_refresh, TenantContext, session_key, pkce_key, refresh_lock_key, Session, PkceState,
}
use authsentinel.Text.{stripped, ◌+s◌, trim_space, has_prefix, trim_suffix, trim_prefix}
use authsentinel.Token.IdToken.{JwtToken, validate_id_token, check_claims}
use authsentinel.Value.{str}

pub record Store : Type 0 where
  pub sessions : Dict Session
  pub logins : Dict PkceState
  pub locks : Dict Bool

abbrev done : Store → Result (Unit {0}) × Store
done s = (ok tt, s)

abbrev is_none : Option Bool → Bool
is_none none = true
is_none (some _) = false

abbrev stores : Stores Store
stores = record {
  session_get = λ k s. (ok (lookup k s.sessions), s);
  session_set = λ k v _ s. done (record s { sessions = insert k v s.sessions });
  session_delete = λ k s. done (record s { sessions = delete k s.sessions });
  pkce_get = λ k s. (ok (lookup k s.logins), s);
  pkce_set = λ k v _ s. done (record s { logins = insert k v s.logins });
  pkce_delete = λ k s. done (record s { logins = delete k s.logins });
  lock_obtain =
      λ k _ s. (ok (is_none (lookup k s.locks)), record s { locks = insert k true s.locks });
  lock_release = λ k s. done (record s { locks = delete k s.locks });
}

abbrev letters : List ℕ → String
letters [] = ""
letters (b ∷ bs) = String.◌∷◌ (char_at "abcdefghijklmnopqrstuvwxyz" b) (letters bs)

abbrev token_of : String → JwtToken
token_of raw = record {
  claims = some (("sub", str "ann") ∷ ("aud", str "app") ∷ ("nonce", str raw) ∷ []);
  valid = true;
}

-- The environment counts the random values handed out. An ID token is its nonce.
abbrev outside : Outside ℕ
outside = record {
  jwt = record {
    get_jwks = λ _ x. (ok "keys", x);
    decode_jwks = λ _. ok [];
    raw_url_decode = λ _. ok [];
    jwt_parse = λ raw _ _ x. (ok (token_of raw), x);
  };
  authorization_url = λ state _ _ x. (ok ("https://idp/?state=" +s state), x);
  exchange_code = λ _ _ _ x. (
    ok (record { access_token = "at"; refresh_token = "rt"; id_token = "n1"; expires_in = pos 60 }),
    x,
  );
  provider_refresh = λ _ x. (
    ok (record { access_token = "at2"; refresh_token = ""; id_token = ""; expires_in = pos 60 }),
    x,
  );
  end_session_url = λ _ _ x. (ok "https://idp/logout", x);
  random = λ _ x. (ok (x ∷ []), suc x);
  sha256 = λ _. 7 ∷ [];
  raw_url_encode = letters;
  now = λ x. (pos 1000, x);
  post_webhook = λ _ _ x. (tt, x);
}

abbrev no_url : String → Option Url
no_url _ = none

abbrev pub deps : Deps Store ℕ
deps = record {
  stores = stores;
  outside = outside;
  cookie = record { encode = λ id. ok ("c:" +s id); decode = λ c. ok (trim_prefix c "c:") };
  url_parse = no_url;
}

abbrev pub config : Config
config = record {
  oidc_issuer = "https://idp";
  oidc_redirect_uri = "https://app/callback";
  oidc_client_id = "app";
  oidc_client_secret = "";
  oidc_scopes = [];
  oidc_audience = "";
  oidc_claims_source = "id_token";
  redis_url = "redis";
  session_redis_prefix = "auth";
  session_ttl_seconds = pos 36000;
  session_pkce_ttl_seconds = pos 300;
  session_refresh_lock_ttl_seconds = pos 15;
  session_refresh_early_seconds = pos 60;
  cookie_name = "session";
  cookie_signing_secret = "secret";
  cookie_secure = true;
  cookie_same_site_str = "lax";
  cookie_domain = "";
  cookie_same_site = lax;
  app_base_url = "https://app";
  login_error_redirect_path = "/login";
  allowed_redirect_origins = "https://other" ∷ [];
  allowed_redirect_paths = "/" ∷ [];
  http_port = "8080";
  admin_secret = "";
  post_login_webhook_url = "";
  session_enrichment_api = "";
  cors_allowed_origins = [];
  provider_plugin_id = "";
}

abbrev kept_login : PkceState
kept_login = record {
  state = "s1";
  code_verifier = "v1";
  code_challenge = "h";
  nonce = "n1";
  redirect_to = "/inbox";
}

abbrev old_session : Session
old_session = record {
  id = "id1";
  access_token = "at";
  refresh_token = "rt";
  id_token = "n1";
  expires_at = pos 1010;
  claims = some (("sub", str "ann") ∷ []);
  tenant_context = none;
}

abbrev pub world : World Store ℕ
world = record {
  store = record {
    sessions = ("id1", old_session) ∷ [];
    logins = ("s1", kept_login) ∷ [];
    locks = [];
  };
  env = 1;
}

abbrev callback : LoginEndRequest
callback = record { code = "code"; state = "s1"; error = ""; host = "app" }

abbrev logged_in : LoginEndResponse
logged_in = record {
  redirect_url = "https://app/inbox";
  set_cookie_value = "c:b";
  clear_cookie = false;
}

abbrev foreign : LogoutRequest
foreign = record { session_cookie = "id1"; redirect_to = ""; origin = "https://evil"; referer = "" }

unfoldable pub toy_sessions : SessionLaws stores
toy_sessions = record {
  kept = λ claims. claims;
  get-set = λ k sess ttl s s' h.
      ap (λ (r : Result (Unit {0}) × Store). (stores.session_get k r.1).0) (sym h)
      ∙ ap ok (lookup-inserted k sess s.sessions);
}

pub toy_cookies : CookieLaws deps.cookie
unfolding trim_prefix
toy_cookies = record {
  decode-encode_law = λ id value h.
      ap (λ v. ok (trim_prefix v "c:")) (sym (ok_injective h))
      ∙ ap (λ o. ok (stripped ("c:" +s id) o)) (strip-append "c:" id);
}

abbrev tenant : TenantContext
tenant = record {
  tenant_id = "t1";
  tenant_slug = "t";
  status = "on";
  locale = "en";
  timezone = "UTC";
}

toy_logins : PkceLaws stores
toy_logins = record {
  get-delete = λ k s. ap ok (lookup-deleted k s.logins);
  get-session_set = λ k id sess ttl s. refl;
}
