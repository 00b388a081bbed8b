-- ===== src/Agent/Logout.antt =====
-- Logout of internal/agent/service/service.go
pub mod Csrf
use authsentinel.Base.{
  Bool, true, false, ◌&&◌, ◌||◌, not, String, List, Option, none, some, Result, ok, err, any,
  if◌then◌else◌, ◌==◌,
}
use authsentinel.Agent.Config.{Config}
use authsentinel.Agent.Deps.{Deps}
use authsentinel.Agent.Flow.{
  World, M, ◌>>=◌, ◌>>◌, pure, stop, checked, call, run, on_store, on_env,
}
use authsentinel.Agent.Login.{validated_or_base}
use authsentinel.Session.{Session}
use authsentinel.Text.{◌+s◌, has_prefix, trim_suffix}

pub record LogoutRequest : Type 0 where
  pub session_cookie : String
  pub redirect_to : String
  pub origin : String
  pub referer : String

pub record LogoutResponse : Type 0 where
  pub redirect_url : String
  pub clear_cookie : Bool

abbrev pub base_of : Config → String
base_of cfg = trim_suffix cfg.app_base_url "/"

-- The loop over the allowed origins
unfoldable pub listed : Config → LogoutRequest → Bool
listed cfg req =
    any
      (λ o.
        req.origin == o
        || req.referer == o
        || req.referer == base_of cfg +s "/"
        || has_prefix req.referer (base_of cfg +s "/"))
      cfg.allowed_redirect_origins

-- Whether the check on Origin and Referer refuses the request
unfoldable pub refused : Config → LogoutRequest → Bool
unfolding listed
refused cfg req =
    if not (req.origin == "") || not (req.referer == "")
    then if not (listed cfg req) && (not (req.origin == "") || not (req.referer == ""))
      then not (req.origin == base_of cfg) && not (req.origin == "")
      else false
    else false

module _ {S X : Type 0} (d : Deps S X) (cfg : Config) where
  open d use {stores, outside, cookie}

  abbrev LogoutFlow : Type 0 → Type 0
  LogoutFlow = M (World S X) (Result LogoutResponse)

  abbrev id_or_empty : Result String → String
  id_or_empty (ok id) = id
  id_or_empty (err _) = ""

  -- `_ = s.cookie.Decode(…)`: a cookie that does not decode is as good as none.
  unfoldable pub session_id_of : String → String
  session_id_of session_cookie =
      if session_cookie == "" then "" else id_or_empty (cookie.decode session_cookie)

  drop_found : String → Result (Option Session) → LogoutFlow String
  drop_found id (ok (some sess)) = do
    _ ← call (on_store (stores.session_delete id))
    pure sess.id_token
  drop_found id _ = pure ""

  -- The session is deleted; its ID token becomes the hint for the provider.
  drop_session : String → LogoutFlow String
  unfolding drop_found
  drop_session id =
      if id == ""
      then pure ""
      else (do sess ← call (on_store (stores.session_get id)); drop_found id sess)

  abbrev home : LogoutRequest → String → Result LogoutResponse
  home req url = ok (record {
    redirect_url = if url == "" then validated_or_base d cfg req.redirect_to else url;
    clear_cookie = true;
  })

  logout_flow : LogoutRequest → LogoutFlow (Result LogoutResponse)
  unfolding refused session_id_of drop_session
  logout_flow req = if refused cfg req then stop (err "csrf: origin not allowed") else do
    hint ← drop_session (session_id_of req.session_cookie)
    url ←
        checked (λ _. home req "")
          (on_env (outside.end_session_url hint (validated_or_base d cfg req.redirect_to)))
    pure (home req url)

  unfoldable pub logout : LogoutRequest → World S X → Result LogoutResponse × World S X
  unfolding logout_flow
  logout req = run (logout_flow req)
