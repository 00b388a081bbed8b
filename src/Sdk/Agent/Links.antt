-- ===== src/Sdk/Agent/Links.antt =====
-- The URLs that an application gives to a browser, at the agent's server.
use text.Mathlib.TextLemmas.{append_assoc}
use authsentinel.Base.{
  ap, ◌∙◌, subst, true, Dict, ◌≡◌, refl, sym, arith, String, List, Option, none, Result, lookup,
  ◌==◌, Bool-cases, inl, inr, eq_iff,
}
use authsentinel.Agent.Config.{Config}
use authsentinel.Agent.Deps.{Deps}
use authsentinel.Agent.Flow.{World}
use authsentinel.Agent.Login.{login_start}
use authsentinel.Agent.Logout.{LogoutRequest, logout}
use authsentinel.Agent.Server.{serve, routes, handle_login, handle_logout, started, logged_out}
use authsentinel.Agent.Server.Answers.{Server, logout_target}
use authsentinel.Agent.Server.Http.{Act, Request}
use authsentinel.Agent.Server.Mux.{dispatch}
use authsentinel.Text.{◌+s◌}
use authsentinel.Sdk.{
  client_base, AgentClient, get_login_url, get_logout_url, redirect_query, cookie_header,
}
use authsentinel.Sdk.Agent.{Wire, Asks, letters, client, server, or_blank}

-- The query of a redirect has the target.
redirect_query-lookup :
    (target : String) → or_blank (lookup "redirect_to" (redirect_query target)) ≡ target
unfolding lookup
redirect_query-lookup target = elim (Bool-cases (target == "")) [
  | inl empty ↦ rw empty (sym ((eq_iff target "").0 empty))
  | inr given ↦ rw given refl
]

abbrev pub browser_logout : Request → String → String → LogoutRequest
browser_logout r value target = record {
  session_cookie = value;
  redirect_to = target;
  origin = r.header "Origin";
  referer = r.header "Referer";
}

url-parts : (path query : String) → path +s "?" +s query ≡ (path +s "?") +s query
url-parts path query = sym (append_assoc path "?" query)

module _ {S X : Type 0} (d : Deps S X) (cfg : Config)
    (ping : Option (World S X → Result (Unit {0}) × World S X))
    (metrics : Option (Request → World S X → List Act × World S X))
    (location : Request → String → String) (t : Wire) (url : String) where
  abbrev agent : Server (World S X)
  agent = server d cfg ping metrics location t url

  abbrev app : AgentClient (World S X)
  app = client d cfg ping metrics location t url

  -- A GET that a browser makes for the base URL, a path of letters and an encoded query reaches the
  -- agent with this path, this query and the value of the browser's session cookie.
  abbrev pub Arrives : Dict String → Option String → String → Type 0
  Arrives query cookie value =
      (name : String)
      → letters name ≡ true
      → Asks cfg ("/" +s name) value query
          (t.browse (client_base url +s ("/" +s name) +s "?" +s t.encode query) cookie)

  with_get : String → Request → Request
  with_get path r = record r { method = "GET"; path = path }

  Asks-with_get :
      (path value : String) (query : Dict String) (r : Request)
      → Asks cfg path value query r
      → r ≡ with_get path r
  unfolding with_get
  Asks-with_get path value query r asks =
      λ i. record r { method = asks.method_is i; path = asks.path_is i }

  serve-login :
      (r : Request) (w : World S X)
      → serve agent (with_get "/login" r) w ≡ handle_login agent (with_get "/login" r) w
  unfolding serve routes dispatch with_get
  serve-login r w = ground arith

  serve-logout :
      (r : Request) (w : World S X)
      → serve agent (with_get "/logout" r) w ≡ handle_logout agent (with_get "/logout" r) w
  unfolding serve routes dispatch with_get
  serve-logout r w = ground arith

  handle_login-asked :
      (r : Request) (target : String) (w : World S X)
      → Asks cfg "/login" "" (redirect_query target) r
      → serve agent r w
        ≡ (started agent r (login_start d cfg target w).0, (login_start d cfg target w).1)
  unfolding handle_login
  handle_login-asked r target w asks =
      ap (λ q. serve agent q w) (Asks-with_get "/login" "" (redirect_query target) r asks)
      ∙ serve-login r w
      ∙ ap (λ q. handle_login agent q w)
          (sym (Asks-with_get "/login" "" (redirect_query target) r asks))
      ∙ ap (λ q. (started agent r (login_start d cfg q w).0, (login_start d cfg q w).1))
          (asks.query_is "redirect_to" ∙ redirect_query-lookup target)

  logout_target-asked :
      (r : Request) (value target : String)
      → Asks cfg "/logout" value (redirect_query target) r
      → logout_target r ≡ target
  logout_target-asked r value target asks =
      let asked = asks.query_is "redirect_to" ∙ redirect_query-lookup target in
      let form = asks.form_is "redirect_to" ∙ redirect_query-lookup target in
      ground (arith, asked, form)

  handle_logout-asked :
      (r : Request) (value target : String) (w : World S X)
      → Asks cfg "/logout" value (redirect_query target) r
      → serve agent r w ≡ (
        logged_out agent r (logout d cfg (browser_logout r value target) w).0,
        (logout d cfg (browser_logout r value target) w).1,
      )
  unfolding handle_logout
  handle_logout-asked r value target w asks =
      ap (λ q. serve agent q w) (Asks-with_get "/logout" value (redirect_query target) r asks)
      ∙ serve-logout r w
      ∙ ap (λ q. handle_logout agent q w)
          (sym (Asks-with_get "/logout" value (redirect_query target) r asks))
      ∙ ap
          (λ (q : String × String). (
            logged_out agent r (logout d cfg (browser_logout r q.0 q.1) w).0,
            (logout d cfg (browser_logout r q.0 q.1) w).1,
          ))
          (λ i. (asks.value_is i, logout_target-asked r value target asks i))

  -- If a browser's GET for the base URL, a path of letters and the encoded query of a redirect to
  -- `target` reaches the agent with this path and this query and without a session cookie, then the
  -- agent answers the browser that follows the SDK's login URL for the target as LoginStart does for
  -- it, with an error or a redirect to the provider, and its state is the one after LoginStart.
  pub get_login_url-login_start :
      (target : String) (w : World S X)
      → Arrives (redirect_query target) none ""
      → serve agent (t.browse (get_login_url app target) none) w ≡ (
        started agent (t.browse (get_login_url app target) none) (login_start d cfg target w).0,
        (login_start d cfg target w).1,
      )
  unfolding letters
  get_login_url-login_start target w arrives =
      handle_login-asked (t.browse (get_login_url app target) none) target w (
        subst (λ u. Asks cfg "/login" "" (redirect_query target) (t.browse u none))
          (ap (λ x. client_base url +s x) (url-parts "/login" (t.encode (redirect_query target))))
          (arrives "login" refl))

  -- Likewise the agent answers the browser that follows the SDK's logout URL with a session cookie as
  -- Logout does for this cookie, the target and the request's Origin and Referer.
  pub get_logout_url-logout :
      (value target : String) (w : World S X)
      → Arrives (redirect_query target) (cookie_header app value) value
      → serve agent (t.browse (get_logout_url app target) (cookie_header app value)) w ≡ (
        logged_out agent
            (t.browse (get_logout_url app target) (cookie_header app value))
            (logout d cfg
              (browser_logout
                (t.browse (get_logout_url app target) (cookie_header app value))
                value
                target)
              w).0,
        (logout d cfg
            (browser_logout
              (t.browse (get_logout_url app target) (cookie_header app value))
              value
              target)
            w).1,
      )
  unfolding letters
  get_logout_url-logout value target w arrives =
      let cookie = cookie_header app value in
      handle_logout-asked (t.browse (get_logout_url app target) cookie) value target w (
        subst (λ u. Asks cfg "/logout" value (redirect_query target) (t.browse u cookie))
          (ap (λ x. client_base url +s x) (url-parts "/logout" (t.encode (redirect_query target))))
          (arrives "logout" refl))
