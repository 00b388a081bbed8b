-- ===== src/Agent/Sessions.antt =====
-- Session, Resolve, AttachTenantContext and sessionToUser of internal/agent/service/service.go
pub mod Laws
use authsentinel.Base.{
  Bool, true, false, ◌||◌, String, List, [], ◌∷◌, Option, none, some, Result, ok, err, ℤ, Dict, any,
  is_empty, if◌then◌else◌, ◌==◌,
}
use authsentinel.Agent.Config.{Config}
use authsentinel.Agent.Deps.{Deps}
use authsentinel.Agent.Flow.{World, M, ◌>>=◌, pure, stop, checked, call, run, on_store}
use authsentinel.Session.{Session, TenantContext}
use authsentinel.Value.{
  Value, Claims, Fields, end, field, str, get, string_of, strings_of, object_of,
}

pub record SessionUser : Type 0 where
  pub sub : String
  pub email : String
  pub preferred_username : String
  pub name : String
  pub roles : List String
  pub groups : List String
  pub is_admin : Bool
  pub tenant_context : Claims
  pub claims : Claims

-- realm_access.roles, or roles if those are missing
unfoldable pub user_roles : Claims → List String
unfolding get
user_roles claims =
    let nested = strings_of (get "roles" (object_of (get "realm_access" claims))) in
    if is_empty nested then strings_of (get "roles" claims) else nested

abbrev pub is_admin_role : String → Bool
is_admin_role r = r == "admin" || r == "administrator"

-- The map that the code makes of a tenant context; nil where there is none.
abbrev pub tenant_map : Option TenantContext → Claims
tenant_map none = none
tenant_map (some tc) = some (
    ("tenant_id", str tc.tenant_id)
    ∷ ("tenant_slug", str tc.tenant_slug)
    ∷ ("status", str tc.status)
    ∷ ("locale", str tc.locale)
    ∷ ("timezone", str tc.timezone)
    ∷ [])

unfoldable pub session_to_user : Session → SessionUser
unfolding user_roles get
session_to_user sess = record {
  sub = string_of (get "sub" sess.claims);
  email = string_of (get "email" sess.claims);
  preferred_username = string_of (get "preferred_username" sess.claims);
  name = string_of (get "name" sess.claims);
  roles = user_roles sess.claims;
  groups = strings_of (get "groups" sess.claims);
  is_admin = any is_admin_role (user_roles sess.claims);
  tenant_context = tenant_map sess.tenant_context;
  claims = sess.claims;
}

-- A SessionResponse; the user is missing where nobody is authenticated.
pub record SessionResponse : Type 0 where
  pub is_authenticated : Bool
  pub user : Option SessionUser
  pub set_cookie : String

-- What the proxy is told of a session.
pub record Resolved : Type 0 where
  pub access_token : String
  pub claims : Dict Value
  pub tenant_context : Claims
  pub set_cookie_value : String

abbrev pub nobody : SessionResponse
nobody = record { is_authenticated = false; user = none; set_cookie = "" }

abbrev pub or_made : Claims → Dict Value
or_made none = []
or_made (some m) = m

module _ {S X : Type 0} (d : Deps S X) (cfg : Config) where
  open d use {stores, cookie}

  session_answer : Option Session → M (World S X) SessionResponse SessionResponse
  session_answer none = stop nobody
  session_answer (some sess) =
      pure (record { is_authenticated = true; user = some (session_to_user sess); set_cookie = "" })

  session_flow : String → M (World S X) SessionResponse SessionResponse
  unfolding session_answer
  session_flow session_cookie = if session_cookie == "" then stop nobody else do
    id ← checked (λ _. nobody) (λ w. (cookie.decode session_cookie, w))
    sess ← checked (λ _. nobody) (on_store (stores.session_get id))
    session_answer sess

  unfoldable pub session : String → World S X → SessionResponse × World S X
  unfolding session_flow
  session session_cookie = run (session_flow session_cookie)

  resolve_answer : Option Session → M (World S X) (Result Resolved) (Result Resolved)
  resolve_answer none = stop (err "session not found")
  resolve_answer (some sess) = pure (
      ok (record {
        access_token = sess.access_token;
        claims = or_made sess.claims;
        tenant_context = tenant_map sess.tenant_context;
        set_cookie_value = "";
      }))

  resolve_flow : String → M (World S X) (Result Resolved) (Result Resolved)
  unfolding resolve_answer
  resolve_flow session_cookie = if session_cookie == "" then stop (err "no session cookie") else do
    id ← checked (λ _. err "invalid cookie") (λ w. (cookie.decode session_cookie, w))
    sess ← checked (λ _. err "session not found") (on_store (stores.session_get id))
    resolve_answer sess

  unfoldable pub resolve : String → World S X → Result Resolved × World S X
  unfolding resolve_flow
  resolve session_cookie = run (resolve_flow session_cookie)

  attach_to :
      String
      → TenantContext
      → Option Session
      → M (World S X) (Result (Unit {0})) (Result (Unit {0}))
  attach_to id tc none = stop (err "session not found")
  attach_to id tc (some sess) = call (
      on_store
        (stores.session_set id (record sess { tenant_context = some tc }) cfg.session_ttl_seconds))

  attach_flow :
      String → Option TenantContext → M (World S X) (Result (Unit {0})) (Result (Unit {0}))
  unfolding attach_to
  attach_flow id none = stop (err "session_id and tenant_context required")
  attach_flow id (some tc) =
      if id == "" then stop (err "session_id and tenant_context required") else do
        sess ← checked (λ _. err "session not found") (on_store (stores.session_get id))
        attach_to id tc sess

  unfoldable pub attach_tenant_context :
      String → Option TenantContext → World S X → Result (Unit {0}) × World S X
  unfolding attach_flow
  attach_tenant_context id tc = run (attach_flow id tc)
