-- ===== src/Agent/Server/Roundtrip.antt =====
-- A login at the agent's server and the proxy's request that follows it.
use authsentinel.Base.{
  ◌≡◌, ◌≢◌, refl, ap, sym, ◌∙◌, true, false, ◌||◌, String, List, [], ◌∷◌, Option, none, some,
  Result, ok, err, Exists, ◌⊎◌, inl, inr, arith, if◌then◌else◌, ◌==◌, subst, delete, eq_refl,
}
use authsentinel.Agent.Config.{Config}
use authsentinel.Agent.Deps.{Deps}
use authsentinel.Agent.Deps.Laws.{SessionLaws, CookieLaws}
use authsentinel.Agent.Flow.{World}
use authsentinel.Agent.Login.{LoginEndResponse, login_end, session_claims}
use authsentinel.Agent.Login.Authenticated.{Authenticated}
use authsentinel.Agent.Login.Opened.{login_end-resolve}
use authsentinel.Agent.Sessions.{tenant_map, Resolved, or_made, resolve}
use authsentinel.Agent.Server.{
  routes, serve, handle_callback, handle_resolve, admin_page, resolved_shown,
}
use authsentinel.Agent.Server.Answers.{Server, callback_request, get_cookie, session_cookie}
use authsentinel.Agent.Server.Acts.{respond-All, All-Exists, dispatch-skip}
use authsentinel.Agent.Server.Composed.{agent_server}
use authsentinel.Agent.Server.Cookies.{clear_line, cookie_line}
use authsentinel.Agent.Server.Http.{Act, Request, Response, a_resolved, respond}
use authsentinel.Agent.Server.Kept.{Clearing, Fine, ended-Kept}
use authsentinel.Agent.Server.Mux.{dispatch}
use authsentinel.Text.{◌+s◌}

abbrev cookie_jar : Config → String → String → Option String
cookie_jar cfg value name = if cfg.cookie_name == name then some value else none

-- The request that the proxy makes for a browser with the cookie
abbrev pub proxy_request : Config → String → Request
proxy_request cfg value = record {
  method = "GET";
  path = "/internal/resolve";
  host = "";
  query = λ _. "";
  form_value = λ _. "";
  header = λ _. "";
  cookie = cookie_jar cfg value;
  patch_body = err "no body";
}

abbrev pub resolved_response : Resolved → Response
resolved_response x = record {
  status = 200;
  headers = ("Content-Type", "application/json") ∷ [];
  body = a_resolved x ∷ [];
}

module _ {S X : Type 0} (d : Deps S X) (cfg : Config)
    (ping : Option (World S X → Result (Unit {0}) × World S X))
    (metrics : Option (Request → World S X → List Act × World S X))
    (location : Request → String → String) where
  abbrev server : Server (World S X)
  server = agent_server d cfg ping metrics location

  at_callback :
      (r : Request) (path : String)
      → r.path ≡ "/callback"
      → (r.path == path) ≡ ("/callback" == path)
  at_callback r path at = ap (λ p. p == path) at

  serve-callback :
      (r : Request) (w : World S X)
      → r.path ≡ "/callback"
      → (r.method == "GET" || r.method == "POST") ≡ true
      → serve server r w ≡ handle_callback server r w
  unfolding serve routes dispatch
  serve-callback r w at how =
      dispatch-skip "/admin" (admin_page server) _ false r w (at_callback r "/admin" at)
      ∙ dispatch-skip "/metrics" metrics _ false r w (at_callback r "/metrics" at)
      ∙ ground (
        arith,
        how,
        at_callback r "/healthz" at,
        at_callback r "/readyz" at,
        at_callback r "/livez" at,
        at_callback r "/login" at,
        at_callback r "/callback" at,
      )

  serve-resolve :
      (value : String) (w : World S X)
      → serve server (proxy_request cfg value) w ≡ handle_resolve server (proxy_request cfg value) w
  unfolding serve routes dispatch
  serve-resolve value w = ground arith

  -- The login that a cookie line of the callback comes from.
  abbrev Made : Request → World S X → String → Type 0
  Made r w line =
      (resp : LoginEndResponse) × (login_end d cfg (callback_request r) w
        ≡ (ok resp, (handle_callback server r w).1))
      × (resp.set_cookie_value ≢ "")
      × (line ≡ cookie_line cfg resp.set_cookie_value)

  handle_callback-Made :
      (r : Request) (w : World S X) (line : String)
      → Exists (λ e. e ≡ ("Set-Cookie", line)) (respond (handle_callback server r w).0 []).headers
      → Clearing cfg line ⊎ Made r w line
  unfolding handle_callback
  handle_callback-Made r w line found =
      let (answer, later) = login_end d cfg (callback_request r) w in
      All-Exists (Fine server (Made r w)) "Set-Cookie" line
        (respond (handle_callback server r w).0 []).headers
        (respond-All (Fine server (Made r w)) (handle_callback server r w).0 []
          (ended-Kept server (Made r w) r answer
            (λ resp e given. (resp, ap (λ a. (a, later)) e, given, refl)))
          tt)
        found refl

  get_cookie-proxy_request : (value : String) → get_cookie cfg (proxy_request cfg value) ≡ value
  get_cookie-proxy_request value = ground (arith, eq_refl cfg.cookie_name)

  resolved_shown-ok :
      (x : Resolved)
      → x.set_cookie_value ≡ ""
      → respond (resolved_shown server (ok x)) [] ≡ resolved_response x
  unfolding session_cookie respond delete
  resolved_shown-ok x unset = rw unset refl

  handle_resolve-ok :
      (value : String) (w : World S X) (x : Resolved)
      → x.set_cookie_value ≡ ""
      → (resolve d cfg value w).0 ≡ ok x
      → respond (handle_resolve server (proxy_request cfg value) w).0 [] ≡ resolved_response x
  unfolding handle_resolve
  handle_resolve-ok value w x unset h =
      ap (λ c. respond (resolved_shown server (resolve d cfg c w).0) [])
        (get_cookie-proxy_request value)
      ∙ ap (λ answer. respond (resolved_shown server answer) []) h
      ∙ resolved_shown-ok x unset

  module _ (laws : SessionLaws d.stores) (cookies : CookieLaws d.cookie) where
    -- If the server answers a callback with a Set-Cookie line that does not delete the cookie, then the
    -- line carries the value of a login that passed every check, and the proxy that sends this value to
    -- the server next is answered 200 with the access token that the provider gave at this login and the
    -- claims of the ID token, as the store keeps them, if the store reads what was written and the cookie
    -- manager reads its own cookies.
    pub serve-login-resolve :
        (r : Request) (w : World S X) (line : String)
        → r.path ≡ "/callback"
        → (r.method == "GET" || r.method == "POST") ≡ true
        → Exists (λ e. e ≡ ("Set-Cookie", line)) (respond (serve server r w).0 []).headers
        → line ≢ clear_line cfg
        → line ≢ clear_line cfg +s "; Secure"
        → (resp : LoginEndResponse) × (line ≡ cookie_line cfg resp.set_cookie_value)
          × (resp.set_cookie_value ≢ "")
          × (a : Authenticated d cfg (callback_request r) w resp (serve server r w).1) × (respond
                (serve server (proxy_request cfg resp.set_cookie_value) (serve server r w).1).0
                []
              ≡ resolved_response (record {
                access_token = a.tokens.access_token;
                claims = or_made (laws.kept (session_claims d cfg a.principal));
                tenant_context = tenant_map a.sess.tenant_context;
                set_cookie_value = "";
              }))
    serve-login-resolve r w line at how found kept kept_secure =
        let same = serve-callback r w at how in
        let found =
          subst (λ x. Exists (λ e. e ≡ ("Set-Cookie", line)) (respond x.0 []).headers) same found in
        elim (handle_callback-Made r w line found) [
          | inl (inl plain) ↦ absurd (kept plain)
          | inl (inr secure) ↦ absurd (kept_secure secure)
          | inr (resp, ended, given, shown) ↦
              let later = (serve server r w).1 in
              let (a, answer) =
                login_end-resolve d cfg laws cookies (callback_request r) w resp later
                  (ended ∙ ap (λ x. (ok resp, x.1)) (sym same)) given in
              (
                resp,
                shown,
                given,
                a,
                ap (λ x. respond x.0 []) (serve-resolve resp.set_cookie_value later)
                    ∙ handle_resolve-ok resp.set_cookie_value later _ refl answer,
              )
        ]
