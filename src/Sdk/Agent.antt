-- ===== src/Sdk/Agent.antt =====
-- The client of an application at the agent's server.
pub mod Links
use Prim.Native.Char.{code}
use authsentinel.Base.{
  leb, ◌≡◌, ◌≢◌, refl, ap, sym, ◌∙◌, arith, Bool, true, false, not, ◌||◌, String, List, [], ◌∷◌,
  Option, none, some, Result, ok, err, Dict, lookup, delete, if◌then◌else◌, ◌==◌, eq_refl, eqb,
  ==-false, ne_of_==-false, ◌&&◌, Bool-cases, inl, inr, eq_iff,
}
use authsentinel.Agent.Config.{Config}
use authsentinel.Agent.Deps.{Deps}
use authsentinel.Agent.Flow.{World}
use authsentinel.Agent.Login.{login_start}
use authsentinel.Agent.Logout.{LogoutRequest, logout}
use authsentinel.Agent.Refresh as Refresh
use authsentinel.Agent.Refresh.{RefreshResponse}
use authsentinel.Agent.Sessions as Sessions
use authsentinel.Agent.Server.Acts.{dispatch-skip}
use authsentinel.Agent.Server.{
  admin_page, serve, routes, handle_refresh, handle_login, handle_logout, started, logged_out,
  refresh_shown,
}
use authsentinel.Agent.Server.Answers.{Server, get_cookie, session_cookie}
use authsentinel.Agent.Server.Composed.{agent_server}
use authsentinel.Agent.Server.Cookies.{cookie_line}
use authsentinel.Agent.Server.Http.{Act, Body, Request, Response, respond}
use authsentinel.Agent.Server.Mux.{dispatch}
use authsentinel.Sdk.{
  AgentClient, RefreshResult, SessionResponse, get_login_url, get_logout_url, redirect_query,
  client_base, refresh, refresh_of, cookie_header,
}
use authsentinel.Text.{◌+s◌}
use authsentinel.Text.Laws.{append-first, append-second}

-- `browse` makes the server's request of a GET for a URL with a Cookie header; `body_text` is how a
-- body is written.
pub record Wire : Type 0 where
  pub browse : String → Option String → Request
  pub body_text : List Body → String
  pub decode : String → Result SessionResponse
  pub encode : Dict String → String

abbrev pub or_blank : Option String → String
or_blank none = ""
or_blank (some s) = s

-- A client of this server
abbrev pub client_of : {W : Type 0} → Server W → Wire → String → String → AgentClient W
client_of server t url cookie_name = record {
  base_url = client_base url;
  cookie_name = cookie_name;
  get = λ url cookie w.
      let (acts, later) = serve server (t.browse url cookie) w in
      let resp = respond acts [] in
      (
        ok (record {
          status_code = resp.status;
          set_cookie = or_blank (lookup "Set-Cookie" resp.headers);
          body = t.body_text resp.body;
        }),
        later,
      );
  decode = t.decode;
  encode = t.encode;
}

-- Lower-case letters
unfoldable pub letters : String → Bool
letters String.[] = true
letters (String.◌∷◌ c s) = let rest = letters s in leb 97 (code c) && leb (code c) 122 && rest

-- A request of a GET for a path with a query and the value of the session cookie, "" if it has none. Of
-- a GET, FormValue gives what the query has.
pub record Asks (cfg : Config) (path value : String) (query : Dict String) (r : Request)
    : Type 0 where
  pub method_is : r.method ≡ "GET"
  pub path_is : r.path ≡ path
  pub value_is : get_cookie cfg r ≡ value
  pub query_is : (k : String) → r.query k ≡ or_blank (lookup k query)
  pub form_is : (k : String) → r.form_value k ≡ or_blank (lookup k query)

cookie_line-given : (cfg : Config) (value : String) → (cookie_line cfg value == "") ≡ false
unfolding cookie_line
cookie_line-given cfg value =
    ==-false (cookie_line cfg value) ""
      (append-second _ _ (append-first "; SameSite=" _ (ne_of_==-false "; SameSite=" "" refl)))

-- What an application is told of a refresh
abbrev pub told : Config → Result RefreshResponse → RefreshResult
told cfg (err e) = record { refreshed = false; set_cookie = "" }
told cfg (ok resp) =
    if resp.refreshed && not (resp.set_cookie_value == "")
    then record { refreshed = true; set_cookie = cookie_line cfg resp.set_cookie_value }
    else record { refreshed = false; set_cookie = "" }

module _ {S X : Type 0} (d : Deps S X) (cfg : Config)
    (ping : Option (World S X → Result (Unit {0}) × World S X))
    (metrics : Option (Request → World S X → List Act × World S X))
    (location : Request → String → String) (t : Wire) (url : String) where
  abbrev pub server : Server (World S X)
  server = agent_server d cfg ping metrics location

  abbrev pub client : AgentClient (World S X)
  client = client_of server t url cfg.cookie_name

  refresh_shown-told :
      (answer : Result RefreshResponse)
      → refresh_of client (
          ok (record {
            status_code = (respond (refresh_shown server answer) []).status;
            set_cookie =
                or_blank (lookup "Set-Cookie" (respond (refresh_shown server answer) []).headers);
            body = t.body_text (respond (refresh_shown server answer) []).body;
          }))
        ≡ ok (told cfg answer)
  unfolding session_cookie respond lookup
  refresh_shown-told (err e) = refl
  refresh_shown-told (ok resp) = elim (Bool-cases resp.refreshed) [
    | inl done ↦ elim (Bool-cases (resp.set_cookie_value == "")) [
      | inl empty ↦ rw (done, empty) refl
      | inr given ↦ rw (done, given, cookie_line-given cfg resp.set_cookie_value) refl
    ]
    | inr undone ↦ rw undone refl
  ]

  with_get : String → Request → Request
  with_get path r = record r { method = "GET"; path = path }

  Asks-with_get :
      (path value : String) (query : Dict String) (r : Request)
      → Asks cfg path value query r
      → r ≡ with_get path r
  unfolding with_get
  Asks-with_get path value query r asks =
      λ i. record r { method = asks.method_is i; path = asks.path_is i }

  serve-refresh :
      (r : Request) (w : World S X)
      → serve server (with_get "/refresh" r) w ≡ handle_refresh server (with_get "/refresh" r) w
  unfolding serve routes dispatch with_get
  serve-refresh r w = ground arith

  handle_refresh-asked :
      (r : Request) (value : String) (query : Dict String) (w : World S X)
      → Asks cfg "/refresh" value query r
      → serve server r w ≡ (
        refresh_shown server (Refresh.refresh d cfg value w).0,
        (Refresh.refresh d cfg value w).1,
      )
  unfolding handle_refresh
  handle_refresh-asked r value query w asks =
      let same = Asks-with_get "/refresh" value query r asks in
      ap (λ q. serve server q w) same
      ∙ serve-refresh r w
      ∙ ap (λ q. handle_refresh server q w) (sym same)
      ∙ ap
          (λ c. (refresh_shown server (Refresh.refresh d cfg c w).0, (Refresh.refresh d cfg c w).1))
          asks.value_is

  -- If a GET that the SDK makes with a session cookie for the base URL and a path of letters reaches
  -- the agent with this path and this cookie, then Refresh of the SDK never fails and leaves the agent's
  -- state as Refresh of the service does. It reports a refresh with the cookie's line exactly if the
  -- service reports one with a cookie value, and no refresh without a line if the service fails or does
  -- not refresh.
  pub refresh-told :
      (value : String) (w : World S X)
      → ((name : String)
          → letters name ≡ true
          → Asks cfg
              ("/" +s name)
              value
              []
              (t.browse (client_base url +s "/" +s name) (cookie_header client value)))
      → refresh client value w
        ≡ (ok (told cfg (Refresh.refresh d cfg value w).0), (Refresh.refresh d cfg value w).1)
  unfolding refresh letters
  refresh-told value w arrives =
      rw
        (
          handle_refresh-asked _ value [] w (arrives "refresh" refl),
          refresh_shown-told (Refresh.refresh d cfg value w).0,
        )
        refl
