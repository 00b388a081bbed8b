-- ===== src/Agent/Server.antt =====
-- internal/agent/httpserver/server.go: the agent's HTTP server over a service.
pub mod Http
pub mod Cookies
pub mod Mux
pub mod Answers
pub mod Composed
pub mod Acts
pub mod Kept
pub mod Endpoints
pub mod Granted
pub mod Roundtrip
pub mod Statuses
use authsentinel.Base.{
  ℕ, Bool, true, false, not, ◌&&◌, ◌||◌, String, List, [], ◌∷◌, ◌++◌, Option, none, some, Result,
  ok, err, Dict, is_empty, any, if◌then◌else◌, ◌==◌,
}
use authsentinel.Agent.Config.{Config, SameSite, lax, strict, none_mode}
use authsentinel.Agent.ErrorMap.{status_for}
use authsentinel.Agent.Login.{LoginEndRequest, LoginEndResponse}
use authsentinel.Agent.Logout.{LogoutRequest, LogoutResponse}
use authsentinel.Agent.Refresh.{RefreshResponse}
use authsentinel.Agent.Sessions.{SessionResponse, SessionUser, Resolved}
use authsentinel.Session.{TenantContext}
use authsentinel.Text.{◌+s◌, itoa}
use authsentinel.Value.{Value, bool, str}
use Answers.{
  Concrete, Service, Server, service_error, unauthorized_json, plain, json_body, clear_cookie, when,
  session_cookie, get_cookie, callback_request, logout_target,
}
use Cookies.{clear_line, cookie_line}
use Mux.{Handler, Route, gets, optional, dispatch, cors}
use Http.{
  Request, Body, text, a_session_body, a_user, a_resolved, an_admin_view, Act, set, add,
  write_header, write, http_error, PatchBody,
}

module _ {W : Type 0} (s : Server W) where
  open s use {cfg, svc}

  -- http.Redirect, less the HTML that it writes where the request is a GET
  abbrev pub redirect : Request → String → List Act
  redirect r target = set "Location" (s.location r target) ∷ write_header 302 ∷ []

  abbrev pub handle_healthz : Handler W
  handle_healthz w = (plain 200 "ok", w)

  abbrev pub handle_livez : Handler W
  handle_livez w = (plain 200 "ok", w)

  abbrev pub pinged : Result (Unit {0}) × W → List Act × W
  pinged (ok _, w) = (plain 200 "ok", w)
  pinged (err e, w) = (plain 503 ("unhealthy: " +s e), w)

  abbrev pub ready : Option (W → Result (Unit {0}) × W) → Handler W
  ready none w = (plain 200 "ok", w)
  ready (some ping) w = pinged (ping w)

  abbrev pub handle_readyz : Handler W
  handle_readyz = ready s.ping

  abbrev pub agent_config_summary : Dict Value
  agent_config_summary =
      ("oidc_issuer", str cfg.oidc_issuer)
      ∷ ("oidc_redirect_uri", str cfg.oidc_redirect_uri)
      ∷ ("cookie_name", str cfg.cookie_name)
      ∷ ("http_port", str cfg.http_port)
      ∷ ("redis_url_set", bool (not (cfg.redis_url == "")))
      ∷ ("app_base_url", str cfg.app_base_url)
      ∷ []

  abbrev status_of : Result (Unit {0}) × W → Dict Value × W
  status_of (ok _, w) = (("status", str "ok") ∷ [], w)
  status_of (err e, w) = (("status", str "error") ∷ ("error", str e) ∷ [], w)

  abbrev status_by : Option (W → Result (Unit {0}) × W) → W → Dict Value × W
  status_by none w = (("status", str "unknown") ∷ ("message", str "no pinger") ∷ [], w)
  status_by (some ping) w = status_of (ping w)

  abbrev pub session_store_status : W → Dict Value × W
  session_store_status = status_by s.ping

  unfoldable pub handle_admin : Request → Handler W
  handle_admin r w =
      let (status, later) = session_store_status w in
      if r.header "X-Admin-Secret" == cfg.admin_secret
      then (json_body (an_admin_view agent_config_summary status), later)
      else (write_header 403 ∷ [], w)

  abbrev pub started : Request → Result String → List Act
  started r (err e) = service_error e
  started r (ok url) = redirect r url

  unfoldable pub handle_login : Request → Handler W
  unfolding service_error
  handle_login r w =
      let (answer, later) = svc.login_start (r.query "redirect_to") w in (started r answer, later)

  abbrev pub ended : Request → Result LoginEndResponse → List Act
  ended r (err e) = service_error e
  ended r (ok resp) =
      when resp.clear_cookie (clear_cookie cfg)
      ++ session_cookie cfg resp.set_cookie_value
      ++ redirect r resp.redirect_url

  unfoldable pub handle_callback : Request → Handler W
  unfolding service_error session_cookie callback_request
  handle_callback r w =
      let (answer, later) = svc.login_end (callback_request r) w in (ended r answer, later)

  abbrev pub session_shown : Result SessionResponse → List Act
  session_shown (err e) = service_error e
  session_shown (ok resp) =
      session_cookie cfg resp.set_cookie
      ++ json_body
          (a_session_body (("is_authenticated", bool resp.is_authenticated) ∷ []) resp.user)

  unfoldable pub handle_session : Request → Handler W
  unfolding service_error session_cookie
  handle_session r w =
      let (answer, later) = svc.session (get_cookie cfg r) w in (session_shown answer, later)

  abbrev pub me_of : Bool → Option SessionUser → List Act
  me_of true (some user) = json_body (a_user user)
  me_of _ _ = unauthorized_json

  abbrev pub me_shown : Result SessionResponse → List Act
  me_shown (err e) = service_error e
  me_shown (ok resp) = me_of resp.is_authenticated resp.user

  unfoldable pub handle_me : Request → Handler W
  unfolding service_error
  handle_me r w = let (answer, later) = svc.session (get_cookie cfg r) w in (me_shown answer, later)

  abbrev pub logged_out : Request → Result LogoutResponse → List Act
  logged_out r (err e) = service_error e
  logged_out r (ok resp) = when resp.clear_cookie (clear_cookie cfg) ++ redirect r resp.redirect_url

  unfoldable pub handle_logout : Request → Handler W
  unfolding service_error
  handle_logout r w =
      let (answer, later) =
        svc.logout
          (record {
            session_cookie = get_cookie cfg r;
            redirect_to = logout_target r;
            origin = r.header "Origin";
            referer = r.header "Referer";
          })
          w in
      (logged_out r answer, later)

  abbrev pub refresh_shown : Result RefreshResponse → List Act
  refresh_shown (err e) = unauthorized_json
  refresh_shown (ok resp) =
      when resp.refreshed (session_cookie cfg resp.set_cookie_value) ++ (write_header 200 ∷ [])

  unfoldable pub handle_refresh : Request → Handler W
  unfolding session_cookie
  handle_refresh r w =
      let (answer, later) = svc.refresh (get_cookie cfg r) w in (refresh_shown answer, later)

  abbrev pub resolved_shown : Result Resolved → List Act
  resolved_shown (err e) = unauthorized_json
  resolved_shown (ok x) = session_cookie cfg x.set_cookie_value ++ json_body (a_resolved x)

  abbrev pub resolve_by : Option (Concrete W) → Request → Handler W
  resolve_by none r w = (http_error "not available" 501, w)
  resolve_by (some c) r w =
      let (answer, later) = c.resolve (get_cookie cfg r) w in (resolved_shown answer, later)

  unfoldable pub handle_resolve : Request → Handler W
  unfolding session_cookie
  handle_resolve = resolve_by svc.concrete

  abbrev pub patched : Result (Unit {0}) → List Act
  patched (err e) = service_error e
  patched (ok _) = write_header 200 ∷ []

  abbrev pub attach_body : Concrete W → String → Option TenantContext → Handler W
  attach_body c id none w = (http_error "session_id and tenant_context required" 400, w)
  attach_body c id (some tc) w =
      let (answer, later) = c.attach_tenant_context id (some tc) w in
      if id == ""
      then (http_error "session_id and tenant_context required" 400, w)
      else (patched answer, later)

  abbrev pub patch_decoded : Concrete W → Result PatchBody → Handler W
  patch_decoded c (err e) w = (http_error "invalid json" 400, w)
  patch_decoded c (ok body) w = attach_body c body.session_id body.tenant_context w

  abbrev pub patch_by : Option (Concrete W) → Request → Handler W
  patch_by none r w = (http_error "not available" 501, w)
  patch_by (some c) r w =
      if not (r.method == "PATCH") && not (r.method == "POST")
      then (write_header 405 ∷ [], w)
      else patch_decoded c r.patch_body w

  unfoldable pub handle_patch_session : Request → Handler W
  unfolding service_error
  handle_patch_session = patch_by svc.concrete

  abbrev pub admin_page : Option (Request → Handler W)
  admin_page = if cfg.admin_secret == "" then none else some handle_admin

  unfoldable pub routes : List (Route W)
  routes =
      optional "/admin" admin_page
      ++ (optional "/metrics" s.metrics_handler
          ++ (gets "/healthz" (λ r. handle_healthz)
              ∷ gets "/readyz" (λ r. handle_readyz)
              ∷ gets "/livez" (λ r. handle_livez)
              ∷ gets "/login" handle_login
              ∷ gets "/callback" handle_callback
              ∷ ("POST" ∷ [], "/callback", handle_callback)
              ∷ gets "/session" handle_session
              ∷ gets "/me" handle_me
              ∷ gets "/logout" handle_logout
              ∷ ("POST" ∷ [], "/logout", handle_logout)
              ∷ gets "/refresh" handle_refresh
              ∷ ("PATCH" ∷ [], "/internal/session", handle_patch_session)
              ∷ ("POST" ∷ [], "/internal/session", handle_patch_session)
              ∷ gets "/internal/resolve" handle_resolve
              ∷ []))

  unfoldable pub serve : Request → Handler W
  serve = dispatch routes false

  -- Handler: the mux, behind CORS where origins are configured
  unfoldable pub handler : Request → Handler W
  handler = if is_empty cfg.cors_allowed_origins then serve else cors cfg.cors_allowed_origins serve
