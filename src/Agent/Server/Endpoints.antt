-- ===== src/Agent/Server/Endpoints.antt =====
-- The cookies that the page behind each route of the agent's server hands out.
use authsentinel.Base.{
  ◌≡◌, refl, ap, not, ◌&&◌, String, List, [], ◌∷◌, Option, none, some, Result, ok, err, All, ◌⊎◌,
  arith, ◌==◌,
}
use authsentinel.Agent.Config.{Config}
use authsentinel.Agent.Deps.{Deps}
use authsentinel.Agent.Flow.{World, run}
use authsentinel.Agent.Login.{LoginEndResponse, login_end}
use authsentinel.Agent.Login.Authenticated.{Authenticated, login_end-Authenticated}
use authsentinel.Agent.Refresh.{RefreshResponse, refresh}
use authsentinel.Agent.Refresh.Refreshed.{Refreshed, refresh-Refreshed}
use authsentinel.Agent.Sessions.{Resolved, session, resolve, attach_tenant_context}
use authsentinel.Agent.Server.{
  routes, admin_page, attach_body, agent_config_summary, session_store_status, patch_decoded,
  handle_admin, handle_login, handle_callback, handle_session, handle_me, handle_logout,
  handle_refresh, handle_resolve, handle_patch_session,
}
use authsentinel.Agent.Server.Answers.{
  Server, session_cookie, get_cookie, callback_request, json_body, Concrete,
}
use authsentinel.Agent.Server.Acts.{All-append, if_both, NoCookie, NoCookie-All}
use authsentinel.Agent.Server.Cookies.{cookie_line}
use authsentinel.Agent.Server.Kept.{
  Clearing, Kept, http_error-Kept, session_cookie-Kept, append-Kept, ended-Kept, me_shown-Kept,
  logged_out-Kept, started-Kept, refresh_shown-Kept, resolved-Kept, patched-Kept, ready-Kept,
}
use authsentinel.Agent.Server.Mux.{Route, Handler, optional}
use authsentinel.Agent.Server.Composed.{agent_server}
use authsentinel.Agent.Server.Http.{PatchBody, an_admin_view, Act, write_header, Request}
use authsentinel.Session.{TenantContext}

module _ {S X : Type 0} (d : Deps S X) (cfg : Config) where
  -- A cookie line with a value that a login or a refresh has made in answer to the request.
  pub data Granted (r : Request) (w : World S X) (line : String) : Type 0 where
    by_login :
        (resp : LoginEndResponse) (w' : World S X)
        → Authenticated d cfg (callback_request r) w resp w'
        → line ≡ cookie_line cfg resp.set_cookie_value
        → Granted r w line
    by_refresh :
        (resp : RefreshResponse) (w' : World S X)
        → Refreshed d cfg (get_cookie cfg r) w resp w'.store
        → line ≡ cookie_line cfg resp.set_cookie_value
        → Granted r w line

  -- Neither the session endpoint nor the resolve endpoint has a cookie to set.
  session-set_cookie : (c : String) (w : World S X) → (session d cfg c w).0.set_cookie ≡ ""
  unfolding session run
  session-set_cookie c w = ground arith

  resolve-set_cookie :
      (c : String) (w : World S X) (x : Resolved)
      → (resolve d cfg c w).0 ≡ ok x
      → x.set_cookie_value ≡ ""
  unfolding resolve run
  resolve-set_cookie c w x h = ground (arith, h)

  module _ (ping : Option (World S X → Result (Unit {0}) × World S X))
      (metrics : Option (Request → World S X → List Act × World S X))
      (location : Request → String → String) where
    abbrev server : Server (World S X)
    server = agent_server d cfg ping metrics location

    abbrev attached : Concrete (World S X)
    attached = record {
      resolve = resolve d cfg;
      attach_tenant_context = attach_tenant_context d cfg;
    }

    module _ (r : Request) (w : World S X) where
      callback-Kept : Kept server (Granted r w) (handle_callback server r w).0
      unfolding handle_callback
      callback-Kept =
          let (answer, later) = login_end d cfg (callback_request r) w in
          ended-Kept server (Granted r w) r answer λ resp e given.
            by_login resp later
              (login_end-Authenticated d cfg (callback_request r) w resp later
                (ap (λ a. (a, later)) e) given)
              refl

      session-Kept : Kept server (Granted r w) (handle_session server r w).0
      unfolding handle_session
      session-Kept =
          let (resp, later) = session d cfg (get_cookie cfg r) w in
          append-Kept server (Granted r w) (session_cookie cfg resp.set_cookie) _
            (session_cookie-Kept server (Granted r w) resp.set_cookie
              (λ given. absurd (given (session-set_cookie (get_cookie cfg r) w))))
            (ground arith)

      me-Kept : Kept server (Granted r w) (handle_me server r w).0
      unfolding handle_me
      me-Kept = me_shown-Kept server (Granted r w) _ _

      login-Kept : Kept server (Granted r w) (handle_login server r w).0
      unfolding handle_login
      login-Kept = started-Kept server (Granted r w) r _

      logout-Kept : Kept server (Granted r w) (handle_logout server r w).0
      unfolding handle_logout
      logout-Kept = logged_out-Kept server (Granted r w) r _

      refresh-Kept : Kept server (Granted r w) (handle_refresh server r w).0
      unfolding handle_refresh
      refresh-Kept =
          let c = get_cookie cfg r in
          let (answer, later) = refresh d cfg c w in
          refresh_shown-Kept server (Granted r w) answer λ resp e fresh.
            by_refresh resp later
              (refresh-Refreshed d cfg c w resp later (ap (λ a. (a, later)) e) fresh) refl

      resolve-Kept : Kept server (Granted r w) (handle_resolve server r w).0
      unfolding handle_resolve
      resolve-Kept = resolved-Kept server (Granted r w) _ (resolve-set_cookie (get_cookie cfg r) w)

      attach-Kept :
          (id : String) (o : Option TenantContext)
          → Kept server (Granted r w) (attach_body server attached id o w).0
      attach-Kept id none =
          http_error-Kept server (Granted r w) "session_id and tenant_context required" 400
      attach-Kept id (some tc) =
          if_both (λ (x : List Act × World S X). Kept server (Granted r w) x.0) (id == "") _ _
            (http_error-Kept server (Granted r w) "session_id and tenant_context required" 400)
            (patched-Kept server (Granted r w) (attach_tenant_context d cfg id (some tc) w).0)

      decoded-Kept :
          (body : Result PatchBody)
          → Kept server (Granted r w) (patch_decoded server attached body w).0
      decoded-Kept (err e) = http_error-Kept server (Granted r w) "invalid json" 400
      decoded-Kept (ok body) = attach-Kept body.session_id body.tenant_context

      patch-Kept : Kept server (Granted r w) (handle_patch_session server r w).0
      unfolding handle_patch_session
      patch-Kept =
          if_both (λ (x : List Act × World S X). Kept server (Granted r w) x.0)
            (not (r.method == "PATCH") && not (r.method == "POST")) (write_header 405 ∷ [], w)
            (patch_decoded server attached r.patch_body w) (tt, tt) (decoded-Kept r.patch_body)

      admin-Kept : Kept server (Granted r w) (handle_admin server r w).0
      unfolding handle_admin
      admin-Kept =
          let (status, later) = session_store_status server w in
          if_both (λ (x : List Act × World S X). Kept server (Granted r w) x.0)
            (r.header "X-Admin-Secret" == cfg.admin_secret)
            (json_body (an_admin_view (agent_config_summary server) status), later)
            (write_header 403 ∷ [], w) (ground arith) (ground arith)

      module _
          (quiet : (h : Request → Handler (World S X))
            → metrics ≡ some h
            → NoCookie (h r w).0) where
        metrics-Kept :
            (o : Option (Request → Handler (World S X)))
            → metrics ≡ o
            → All (λ route. Kept server (Granted r w) (route.2 r w).0) (optional "/metrics" o)
        metrics-Kept none e = tt
        metrics-Kept (some h) e =
            (NoCookie-All (λ line. Clearing cfg line ⊎ Granted r w line) _ (quiet h e), tt)

        pub routes-Kept : All (λ route. Kept server (Granted r w) (route.2 r w).0) (routes server)
        unfolding routes
        routes-Kept =
            All-append (λ (route : Route (World S X)). Kept server (Granted r w) (route.2 r w).0)
              (optional "/admin" (admin_page server)) _
              (if_both
                (λ o.
                  All (λ (route : Route (World S X)). Kept server (Granted r w) (route.2 r w).0)
                    (optional "/admin" o))
                (cfg.admin_secret == "") none (some (handle_admin server)) tt (admin-Kept, tt))
              (All-append (λ (route : Route (World S X)). Kept server (Granted r w) (route.2 r w).0)
                (optional "/metrics" metrics) _ (metrics-Kept metrics refl)
                (
                  ground arith,
                  (
                    ready-Kept server (Granted r w) ping w,
                    (
                      ground arith,
                      (
                        login-Kept,
                        (
                          callback-Kept,
                          (
                            callback-Kept,
                            (
                              session-Kept,
                              (
                                me-Kept,
                                (
                                  logout-Kept,
                                  (
                                    logout-Kept,
                                    (refresh-Kept, (patch-Kept, (patch-Kept, (resolve-Kept, tt)))),
                                  ),
                                ),
                              ),
                            ),
                          ),
                        ),
                      ),
                    ),
                  ),
                ))
