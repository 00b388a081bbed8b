-- ===== src/Agent/Server/Statuses.antt =====
-- The statuses of the endpoints of internal/agent/httpserver/server.go.
use authsentinel.Base.{
  ◌≡◌, ◌≢◌, ℕ, true, ◌||◌, String, List, [], Option, none, some, Result, ok, err, inl, inr, arith,
  if◌then◌else◌, ◌==◌, succeeded, ==-false, Result-cases,
}
use authsentinel.Agent.Config.{Config}
use authsentinel.Agent.Deps.{Deps}
use authsentinel.Agent.Flow.{World, run}
use authsentinel.Agent.Server.{handle_patch_session, handle_me, handle_resolve}
use authsentinel.Agent.Server.Answers.{Server, get_cookie, service_error, session_cookie}
use authsentinel.Agent.Server.Composed.{agent_server}
use authsentinel.Agent.Server.Http.{Act, PatchBody, Request, respond}
use authsentinel.Agent.Sessions.{session, resolve, attach_tenant_context}
use authsentinel.Session.{Session, TenantContext}
use authsentinel.Text.{contains}
use authsentinel.Agent.ErrorMap.{status_for}

module _ {S X : Type 0} (d : Deps S X) (cfg : Config)
    (ping : Option (World S X → Result (Unit {0}) × World S X))
    (metrics : Option (Request → World S X → List Act × World S X))
    (location : Request → String → String) where
  abbrev server : Server (World S X)
  server = agent_server d cfg ping metrics location

  abbrev access_status : Request → World S X → ℕ
  access_status r w = if succeeded (resolve d cfg (get_cookie cfg r) w).0 then 200 else 401

  -- /me and /internal/resolve answer the same request with the same status, 200 where the cookie is that
  -- of a session and 401 otherwise, and leave the same state.
  pub handle_me-resolve :
      (r : Request) (w : World S X)
      → ((respond (handle_me server r w).0 []).status ≡ access_status r w)
        × ((respond (handle_resolve server r w).0 []).status ≡ access_status r w)
        × ((handle_me server r w).1 ≡ (handle_resolve server r w).1)
  unfolding handle_me handle_resolve session resolve run respond session_cookie
  handle_me-resolve r w = ground arith

  abbrev set_status : Result (Unit {0}) → ℕ
  set_status (ok _) = 200
  set_status (err e) = status_for (some (record { text = e; wraps = none }))

  -- Loading the session decides, then storing it.
  abbrev pub patch_status : String → TenantContext → Result (Option Session) × S → ℕ
  patch_status id tc (ok (some sess), s) =
      set_status
        (d.stores.session_set id (record sess { tenant_context = some tc }) cfg.session_ttl_seconds
          s).0
  patch_status id tc _ = 404

  abbrev patch : String → TenantContext → PatchBody
  patch id tc = record { session_id = id; tenant_context = some tc }

  -- A PATCH or POST that names a session and a tenant context is answered 404 where the session is
  -- missing or cannot be loaded, and otherwise 200 or the status of the error of storing it.
  pub handle_patch_session-status :
      (r : Request) (w : World S X) (id : String) (tc : TenantContext)
      → (r.method == "PATCH" || r.method == "POST") ≡ true
      → r.patch_body ≡ ok (patch id tc)
      → id ≢ ""
      → (respond (handle_patch_session server r w).0 []).status
        ≡ patch_status id tc (d.stores.session_get id w.store)
  unfolding handle_patch_session attach_tenant_context run respond service_error status_for contains
  handle_patch_session-status r w id tc how body named =
      elim (Result-cases (d.stores.session_get id w.store).0) [
        | inl (none, loaded) ↦ ground (arith, how, body, ==-false id "" named, loaded)
        | inl (some sess, loaded) ↦ ground (arith, how, body, ==-false id "" named, loaded)
        | inr (e, failed) ↦ ground (arith, how, body, ==-false id "" named, failed)
      ]
