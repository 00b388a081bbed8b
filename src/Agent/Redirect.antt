-- ===== src/Agent/Redirect.antt =====
-- ValidateRedirect of internal/agent/service/redirect.go; url.Parse is a parameter.
pub mod Safe
use authsentinel.Base.{
  ◌≡◌, Bool, true, false, ◌&&◌, ◌||◌, not, String, List, Option, none, some, any, is_empty,
  if◌then◌else◌, ◌==◌,
}
use authsentinel.Text.{◌+s◌, has_prefix, trim_space, trim_suffix}

-- The parts of a url.URL that the code reads.
pub record Url : Type 0 where
  pub scheme : String
  pub host : String
  pub path : String

abbrev pub origin_of : Url → String
origin_of u = u.scheme +s "://" +s u.host

-- The loop over allowed path prefixes.
unfoldable pub path_allowed : List String → String → Bool
path_allowed prefixes path = any (λ p. p == "/" || has_prefix path p) prefixes

unfoldable pub origin_allowed : List String → String → Bool
origin_allowed origins origin = any (λ o. o == origin || o == "*") origins

-- `none` is an error of url.Parse.
module _ (url_parse : String → Option Url) where
  unfoldable pub check_url : Option Url → String → List String → List String → String
  unfolding path_allowed origin_allowed
  check_url none target origins prefixes = ""
  check_url (some u) target origins prefixes =
      if not (u.scheme == "https") && not (u.scheme == "http")
      then ""
      else if not (origin_allowed origins (origin_of u))
      then ""
      else if not (is_empty prefixes) && not (path_allowed prefixes u.path)
      then ""
      else target

  -- The checks behind the trimming of white space.
  unfoldable pub check_target : String → String → List String → List String → String
  unfolding check_url
  check_target target base_url origins prefixes =
      if target == ""
      then base_url
      else if has_prefix target "/"
      then if is_empty prefixes || path_allowed prefixes target
        then trim_suffix base_url "/" +s target
        else ""
      else check_url (url_parse target) target origins prefixes

  unfoldable pub validate_redirect : String → String → List String → List String → String
  unfolding check_target
  validate_redirect redirect_to base_url origins prefixes =
      check_target (trim_space redirect_to) base_url origins prefixes
