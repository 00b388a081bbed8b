-- ===== src/Agent/Server/Answers.antt =====
-- The service that internal/agent/httpserver/server.go is built on, and what its handlers share: errors,
-- plain and JSON bodies, and the session cookie.
use authsentinel.Base.{
  ℕ, Bool, true, false, not, ◌&&◌, String, List, [], ◌∷◌, Option, none, some, Result, if◌then◌else◌,
  ◌==◌,
}
use authsentinel.Agent.Config.{Config}
use authsentinel.Agent.ErrorMap.{status_for}
use authsentinel.Agent.Login.{LoginEndRequest, LoginEndResponse}
use authsentinel.Agent.Logout.{LogoutRequest, LogoutResponse}
use authsentinel.Agent.Refresh.{RefreshResponse}
use authsentinel.Agent.Sessions.{SessionResponse, Resolved}
use authsentinel.Session.{TenantContext}
use authsentinel.Text.{◌+s◌}
use authsentinel.Agent.Server.Cookies.{clear_line, cookie_line}
use authsentinel.Agent.Server.Http.{
  Request, Body, text, Act, set, add, write_header, write, http_error,
}

-- What only *service.Service has beside the interface
pub record Concrete (W : Type 0) : Type 0 where
  pub resolve : String → W → Result Resolved × W
  pub attach_tenant_context : String → Option TenantContext → W → Result (Unit {0}) × W

-- agent.Service; `concrete` is there where the service is a *service.Service.
pub record Service (W : Type 0) : Type 0 where
  pub session : String → W → Result SessionResponse × W
  pub login_start : String → W → Result String × W
  pub login_end : LoginEndRequest → W → Result LoginEndResponse × W
  pub refresh : String → W → Result RefreshResponse × W
  pub logout : LogoutRequest → W → Result LogoutResponse × W
  pub concrete : Option (Concrete W)

-- `location` is the address that http.Redirect makes of a target; `ping` and `metrics` are optional.
pub record Server (W : Type 0) : Type 0 where
  pub svc : Service W
  pub cfg : Config
  pub ping : Option (W → Result (Unit {0}) × W)
  pub metrics_handler : Option (Request → W → List Act × W)
  pub location : Request → String → String

-- http.Error with the error's text and the status that it is mapped to
unfoldable pub service_error : String → List Act
unfolding status_for
service_error e = http_error e (status_for (some (record { text = e; wraps = none })))

abbrev pub unauthorized_json : List Act
unauthorized_json =
    write_header 401
    ∷ set "Content-Type" "application/json"
    ∷ write (text "{\"error\":\"unauthorized\"}")
    ∷ []

abbrev pub plain : ℕ → String → List Act
plain code message = write_header code ∷ set "Content-Type" "text/plain" ∷ write (text message) ∷ []

abbrev pub json_body : Body → List Act
json_body b = set "Content-Type" "application/json" ∷ write b ∷ []

abbrev pub clear_cookie : Config → List Act
clear_cookie cfg =
    set "Set-Cookie" (clear_line cfg)
    ∷ (if cfg.cookie_secure then add "Set-Cookie" (clear_line cfg +s "; Secure") ∷ [] else [])

abbrev pub when : Bool → List Act → List Act
when true acts = acts
when false acts = []

-- The cookie is written unless the value is empty.
unfoldable pub session_cookie : Config → String → List Act
session_cookie cfg value = when (not (value == "")) (add "Set-Cookie" (cookie_line cfg value) ∷ [])

abbrev or_empty : Option String → String
or_empty none = ""
or_empty (some v) = v

abbrev pub get_cookie : Config → Request → String
get_cookie cfg r = or_empty (r.cookie cfg.cookie_name)

-- The parameters of a callback: of the query, or of the form where the query has neither error nor code
abbrev read_by : (String → String) → String → LoginEndRequest
read_by get host = record {
  code = get "code";
  state = get "state";
  error = get "error";
  host = host;
}

unfoldable pub callback_request : Request → LoginEndRequest
callback_request r =
    if r.query "error" == "" && r.query "code" == ""
    then read_by r.form_value r.host
    else read_by r.query r.host

abbrev pub logout_target : Request → String
logout_target r =
    if r.query "redirect_to" == "" then r.form_value "redirect_to" else r.query "redirect_to"
