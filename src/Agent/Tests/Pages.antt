-- ===== src/Agent/Tests/Pages.antt =====
-- The agent's server over the small stores.
use authsentinel.Base.{
  ◌≡◌, ◌≢◌, refl, ℕ, String, [], ◌∷◌, none, some, ok, err, pos, inl, ◌⊎◌, lookup, insert, delete,
  ne_of_==-false, arith, if◌then◌else◌, ◌==◌,
}
use authsentinel.Agent.Flow.{World, run}
use authsentinel.Agent.Login.{LoginEndResponse, login_end, session_claims}
use authsentinel.Agent.Login.Authenticated.{Authenticated}
use authsentinel.Agent.Pkce.{generate_session_id}
use authsentinel.Agent.Redirect.{validate_redirect}
use authsentinel.Agent.Sessions.{tenant_map, or_made}
use authsentinel.Agent.Server.{serve, handler, routes, handle_callback}
use authsentinel.Agent.Server.Answers.{Server, callback_request, session_cookie}
use authsentinel.Agent.Server.Composed.{agent_server}
use authsentinel.Agent.Server.Cookies.{clear_line, cookie_line}
use authsentinel.Agent.Server.Endpoints.{Granted}
use authsentinel.Agent.Server.Granted.{handler-Granted}
use authsentinel.Agent.Server.Http.{Request, respond, text}
use authsentinel.Agent.Server.Kept.{Clearing}
use authsentinel.Agent.Server.Mux.{dispatch}
use authsentinel.Agent.Server.Roundtrip.{proxy_request, resolved_response, serve-login-resolve}
use authsentinel.Agent.Tests.{Store, config, deps, tenant, toy_cookies, toy_sessions, world}
use authsentinel.Text.{◌+s◌, itoa, trim_space, has_prefix, trim_suffix}
use authsentinel.Token.IdToken.{validate_id_token, check_claims}

abbrev nothing : String → String
nothing _ = ""

abbrev page : String → Request
page path = record {
  method = "GET";
  path = path;
  host = "app";
  query = nothing;
  form_value = nothing;
  header = nothing;
  cookie = λ name. if name == "session" then some "c:id1" else none;
  patch_body = err "no body";
}

abbrev callback_query : String → String
callback_query name = if name == "code" then "code" else if name == "state" then "s1" else ""

abbrev pub callback_page : Request
callback_page = record (page "/callback") { query = callback_query }

abbrev server : Server (World Store ℕ)
server = agent_server deps config none none (λ _ target. target)

itoa_test : itoa (pos 36000) ≡ "36000"
unfolding itoa
itoa_test = refl

healthz_test :
    respond (handler server (page "/healthz") world).0 []
    ≡ record { status = 200; headers = []; body = text "ok" ∷ [] }
unfolding handler serve routes dispatch respond
healthz_test = refl

not_found_test : (respond (handler server (page "/other") world).0 []).status ≡ 404
unfolding handler serve routes dispatch respond delete
not_found_test = refl

wrong_method_test :
    (respond (handler server (record (page "/login") { method = "POST" }) world).0 []).status ≡ 405
unfolding handler serve routes dispatch respond delete
wrong_method_test = refl

handler-Granted_example :
    Clearing config (cookie_line config "c:b")
    ⊎ Granted deps config callback_page world (cookie_line config "c:b")
unfolding handler serve routes dispatch respond delete handle_callback callback_request
    session_cookie login_end run lookup insert validate_id_token check_claims generate_session_id
    validate_redirect trim_space has_prefix trim_suffix
handler-Granted_example =
    handler-Granted deps config none none (λ _ target. target) callback_page world
      (cookie_line config "c:b") (λ h e. absurd (ground arith)) (inl refl)

serve-login-resolve_example :
    (resp : LoginEndResponse) × (cookie_line config "c:b"
      ≡ cookie_line config resp.set_cookie_value)
    × (resp.set_cookie_value ≢ "")
    × (a : Authenticated deps config
        (callback_request callback_page)
        world
        resp
        (serve server callback_page world).1)
    × (respond
          (serve server
            (proxy_request config resp.set_cookie_value)
            (serve server callback_page world).1).0
          []
        ≡ resolved_response (record {
          access_token = a.tokens.access_token;
          claims = or_made (session_claims deps config a.principal);
          tenant_context = tenant_map a.sess.tenant_context;
          set_cookie_value = "";
        }))
unfolding serve routes dispatch respond delete handle_callback callback_request session_cookie
    login_end run lookup insert validate_id_token check_claims generate_session_id validate_redirect
    trim_space has_prefix trim_suffix toy_sessions session_claims cookie_line itoa
serve-login-resolve_example =
    serve-login-resolve deps config none none (λ _ target. target) toy_sessions toy_cookies
      callback_page world (cookie_line config "c:b") refl refl (inl refl)
      (ne_of_==-false (cookie_line config "c:b") (clear_line config) refl)
      (ne_of_==-false (cookie_line config "c:b") (clear_line config +s "; Secure") refl)

abbrev patch_page : Request
patch_page = record (page "/internal/session") {
  method = "POST";
  patch_body = ok (record { session_id = "id9"; tenant_context = some tenant });
}
