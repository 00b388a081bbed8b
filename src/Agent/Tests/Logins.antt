-- ===== src/Agent/Tests/Logins.antt =====
-- Logins and refreshes against the small stores.
use authsentinel.Base.{◌≡◌, refl, ne_of_==-false, true, some, ok, lookup, insert, delete}
use authsentinel.Agent.Login.Opened.{attach_tenant_context-resolve}
use authsentinel.Agent.Login.Started.{Started, login_start-Started}
use authsentinel.Agent.Flow.{run}
use authsentinel.Agent.Redirect.{validate_redirect}
use authsentinel.Agent.Login.Once.{login_end-once}
use authsentinel.Agent.Login.{error_redirect, login_end, expiry, login_start}
use authsentinel.Agent.Login.Authenticated.{Authenticated, login_end-Authenticated}
use authsentinel.Agent.Refresh.{refresh}
use authsentinel.Agent.Refresh.Refreshed.{Refreshed, refresh-Refreshed}
use authsentinel.Agent.Sessions.{Resolved, resolve, or_made, attach_tenant_context}
use authsentinel.Agent.Pkce.{generate_session_id, generate_pkce, generate_state}
use authsentinel.Session.{needs_refresh}
use authsentinel.Text.{trim_space, has_prefix, trim_suffix, trim_prefix}
use authsentinel.Token.IdToken.{validate_id_token, check_claims}
use authsentinel.Value.{get, str}
use authsentinel.Agent.Tests.{
  toy_logins, callback, config, deps, logged_in, old_session, tenant, toy_sessions, world,
}

login_end-Authenticated_example :
    Authenticated deps config callback world logged_in (login_end deps config callback world).1
unfolding login_end run lookup delete insert validate_id_token check_claims generate_session_id
    validate_redirect trim_space has_prefix trim_suffix
login_end-Authenticated_example =
    login_end-Authenticated deps config callback world logged_in
      (login_end deps config callback world).1 refl (ne_of_==-false "c:b" "" refl)

refresh-Refreshed_example :
    Refreshed deps config "id1" world
      (record { set_cookie_value = "c:id1"; refreshed = true })
      (refresh deps config "id1" world).1.store
unfolding refresh run trim_prefix lookup insert delete needs_refresh expiry
refresh-Refreshed_example =
    refresh-Refreshed deps config "id1" world
      (record { set_cookie_value = "c:id1"; refreshed = true }) (refresh deps config "id1" world).1
      refl refl

attach_tenant_context-resolve_example :
    (x : Resolved) × ((resolve deps config "id1"
        (attach_tenant_context deps config "id1" (some tenant) world).1).0
      ≡ ok x)
    × (x.access_token ≡ "at")
    × (x.claims ≡ or_made old_session.claims)
    × (get "tenant_id" x.tenant_context ≡ some (str tenant.tenant_id))
    × (get "tenant_slug" x.tenant_context ≡ some (str tenant.tenant_slug))
    × (get "status" x.tenant_context ≡ some (str tenant.status))
    × (get "locale" x.tenant_context ≡ some (str tenant.locale))
    × (get "timezone" x.tenant_context ≡ some (str tenant.timezone))
unfolding attach_tenant_context run trim_prefix lookup insert toy_sessions
attach_tenant_context-resolve_example =
    attach_tenant_context-resolve deps config toy_sessions "id1" "id1" tenant old_session world
      (attach_tenant_context deps config "id1" (some tenant) world).1 (ne_of_==-false "id1" "" refl)
      refl refl refl

login_start-Started_example :
    Started deps config world "https://idp/?state=d" (login_start deps config "/inbox" world).1
unfolding login_start run insert generate_pkce generate_state
login_start-Started_example =
    login_start-Started deps config "/inbox" world "https://idp/?state=d"
      (login_start deps config "/inbox" world).1 refl

login_end-once_example :
    (login_end deps config
      (record callback { code = "other" })
      (login_end deps config callback world).1).0
    ≡ error_redirect deps config
unfolding login_end run lookup delete insert validate_id_token check_claims generate_session_id
    validate_redirect trim_space has_prefix trim_suffix
login_end-once_example =
    login_end-once deps config toy_logins callback (record callback { code = "other" }) world
      logged_in (login_end deps config callback world).1 refl (ne_of_==-false "c:b" "" refl) refl
