-- ===== src/Agent/ErrorMap.antt =====
-- internal/agent/errormap/errormap.go: HTTP statuses for service errors.
pub mod Statuses
use authsentinel.Base.{ℕ, Bool, true, false, ◌||◌, String, Option, none, some, if◌then◌else◌}
use authsentinel.Text.{◌+s◌, contains}

-- The package's sentinel errors
pub data Sentinel : Type 0 where
  bad_request : Sentinel
  not_found : Sentinel
  unauthorized : Sentinel

-- An error: its text, and the sentinel that it wraps, if any
pub record Error : Type 0 where
  pub text : String
  pub wraps : Option Sentinel

abbrev sentinel_text : Sentinel → String
sentinel_text bad_request = "bad request"
sentinel_text not_found = "not found"
sentinel_text unauthorized = "unauthorized"

-- errors.Join puts a line break between the texts.
abbrev joined : Sentinel → String → Error
joined s msg = record { text = sentinel_text s +s "\n" +s msg; wraps = some s }

abbrev pub new_bad_request : String → Error
new_bad_request = joined bad_request

abbrev pub new_not_found : String → Error
new_not_found = joined not_found

abbrev pub new_unauthorized : String → Error
new_unauthorized = joined unauthorized

abbrev pub wrapped_status : Option Sentinel → ℕ
wrapped_status none = 500
wrapped_status (some bad_request) = 400
wrapped_status (some not_found) = 404
wrapped_status (some unauthorized) = 401

abbrev pub is_client_mistake : String → Bool
is_client_mistake s =
    (contains s "missing" || contains s "required")
    || (contains s "invalid" || contains s "redirect")

unfoldable pub status_for : Option Error → ℕ
unfolding contains
status_for none = 200
status_for (some e) =
    let s = e.text in
    if contains s "missing" || contains s "required"
    then 400
    else if contains s "invalid" || contains s "redirect"
    then 400
    else if contains s "not found" || contains s "NotFound"
    then 404
    else if contains s "unauthorized" || contains s "Unauthorized"
    then 401
    else if contains s "forbidden"
    then 403
    else wrapped_status e.wraps
