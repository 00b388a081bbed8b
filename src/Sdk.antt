-- ===== src/Sdk.antt =====
-- pkg/sdk/client.go, http.go and proxy_adapter.go: what a server-side application uses of AuthSentinel.
-- A context is the principal that it holds.
pub mod Agent
pub mod Grpc
mod Tests
use authsentinel.Base.{
  ℕ, Bool, false, not, String, List, [], ◌∷◌, Option, none, some, Result, ok, err, pos, Dict, eqb,
  if◌then◌else◌, ◌==◌,
}
use authsentinel.Agent.Sessions.{SessionUser}
use authsentinel.Proxy.Http.{normalize_request}
use authsentinel.Proxy.Types as Types
use authsentinel.Text.{◌+s◌, trim_suffix, itoa}
use authsentinel.Token.Claims.{Principal}

pub record SessionResponse : Type 0 where
  pub is_authenticated : Bool
  pub user : Option SessionUser
  pub set_cookie : String

pub record RefreshResult : Type 0 where
  pub refreshed : Bool
  pub set_cookie : String

-- A response with its first Set-Cookie line, "" where there is none
pub record HttpResponse : Type 0 where
  pub status_code : ℕ
  pub set_cookie : String
  pub body : String

-- `get url cookie` is an HTTP request, with a Cookie header where `cookie` is one; `decode` reads the
-- answer's JSON, which has no `set_cookie`; `encode` is url.Values.Encode.
pub record AgentClient (W : Type 0) : Type 0 where
  pub base_url : String
  pub cookie_name : String
  pub get : String → Option String → W → Result HttpResponse × W
  pub decode : String → Result SessionResponse
  pub encode : Dict String → String

-- The base URL that NewAgentClient keeps
unfoldable pub client_base : String → String
unfolding trim_suffix
client_base url =
    let base = trim_suffix url "/" in if base == "" then "http://localhost:8080" else base

abbrev pub redirect_query : String → Dict String
redirect_query url = if url == "" then [] else ("redirect_to", url) ∷ []

abbrev pub status_error : String → ℕ → String → String
status_error what code body = "agent " +s what +s ": status " +s itoa (pos code) +s ": " +s body

-- The Set-Cookie line of the response replaces what the JSON says.
abbrev shown : String → Result SessionResponse → Result SessionResponse
shown line (err e) = err e
shown line (ok out) = ok (if not (line == "") then record out { set_cookie = line } else out)

module _ {W : Type 0} (c : AgentClient W) where
  abbrev pub get_login_url : String → String
  get_login_url return_url = c.base_url +s "/login?" +s c.encode (redirect_query return_url)

  abbrev pub get_logout_url : String → String
  get_logout_url redirect_to = c.base_url +s "/logout?" +s c.encode (redirect_query redirect_to)

  abbrev pub cookie_header : String → Option String
  cookie_header session_cookie =
      if session_cookie == "" then none else some (c.cookie_name +s "=" +s session_cookie)

  abbrev pub session_of : Result HttpResponse → Result SessionResponse
  session_of (err e) = err e
  session_of (ok r) =
      if not (eqb r.status_code 200)
      then err (status_error "session" r.status_code r.body)
      else shown r.set_cookie (c.decode r.body)

  unfoldable pub get_session : String → W → Result SessionResponse × W
  unfolding itoa
  get_session session_cookie w =
      let (r, later) = c.get (c.base_url +s "/session") (cookie_header session_cookie) w in
      (session_of r, later)

  abbrev pub refresh_of : Result HttpResponse → Result RefreshResult
  refresh_of (err e) = err e
  refresh_of (ok r) =
      if eqb r.status_code 401
      then ok (record { refreshed = false; set_cookie = "" })
      else if not (eqb r.status_code 200)
      then err (status_error "refresh" r.status_code r.body)
      else ok (record { refreshed = not (r.set_cookie == ""); set_cookie = r.set_cookie })

  unfoldable pub refresh : String → W → Result RefreshResult × W
  unfolding itoa
  refresh session_cookie w =
      let (r, later) = c.get (c.base_url +s "/refresh") (cookie_header session_cookie) w in
      (refresh_of r, later)

-- What the middleware does with a request: an error answered with 500, a 401, or the next handler with
-- the principal in its context.
pub data Outcome : Type 0 where
  failed : String → Outcome
  unauthorized : Outcome
  next_with : Option Principal → Outcome

abbrev pub middleware : Bool → Result (Option Principal) → Outcome
middleware require_auth (err e) = failed e
middleware require_auth (ok (some p)) = next_with (some p)
middleware require_auth (ok none) = if require_auth then unauthorized else next_with none

-- The request that proxyPrincipalExtractor makes, without a body; the headers and cookies are maps to
-- the first value of a header and the last one of a cookie.
unfoldable pub extractor_request :
    Bool → String → String → String → Dict String → Dict String → Types.Request
unfolding normalize_request
extractor_request tls method path raw_query headers cookies =
    normalize_request (λ _. "") (if tls then "https" else "http") method
      (if raw_query == "" then path else path +s "?" +s raw_query) headers cookies ""
