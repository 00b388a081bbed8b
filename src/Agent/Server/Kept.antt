-- ===== src/Agent/Server/Kept.antt =====
-- The cookie lines among what the agent's handlers do, read off their answers.
use authsentinel.Base.{
  ◌≡◌, ◌≢◌, refl, ℕ, Bool, true, false, not, ◌||◌, String, List, [], ◌∷◌, ◌++◌, Option, none, some,
  Result, ok, err, All, ◌⊎◌, inl, inr, arith, if◌then◌else◌, ◌==◌, ne_of_==-false,
}
use authsentinel.Agent.Config.{Config}
use authsentinel.Agent.ErrorMap.{status_for}
use authsentinel.Agent.Login.{LoginEndResponse}
use authsentinel.Agent.Logout.{LogoutResponse}
use authsentinel.Agent.Refresh.{RefreshResponse}
use authsentinel.Agent.Sessions.{SessionUser, Resolved}
use authsentinel.Agent.Server.{
  ended, logged_out, refresh_shown, resolved_shown, patched, started, me_of, pinged, ready,
}
use authsentinel.Agent.Server.Answers.{Server, when, clear_cookie, session_cookie, service_error}
use authsentinel.Agent.Server.Acts.{All-append, All-when, if_both, ActOk}
use authsentinel.Agent.Server.Cookies.{clear_line, cookie_line}
use authsentinel.Agent.Server.Mux.{listed_origin}
use authsentinel.Agent.Server.Http.{Act, set, add, write_header, Request, http_error}
use authsentinel.Text.{◌+s◌}

-- The two lines that delete the cookie
abbrev pub Clearing : Config → String → Type 0
Clearing cfg line = (line ≡ clear_line cfg) ⊎ (line ≡ clear_line cfg +s "; Secure")

module _ {W : Type 0} (s : Server W) (G : String → Type 0) where
  open s use {cfg}

  -- A header line that sets no cookie, deletes the session cookie, or is granted.
  abbrev pub Fine : String → String → Type 0
  Fine name line = (name == "Set-Cookie") ≡ true → Clearing cfg line ⊎ G line

  abbrev pub Kept : List Act → Type 0
  Kept acts = All (ActOk Fine) acts

  pub http_error-Kept : (message : String) (code : ℕ) → Kept (http_error message code)
  http_error-Kept message code = ground arith

  pub service_error-Kept : (e : String) → Kept (service_error e)
  unfolding service_error
  service_error-Kept e = http_error-Kept e (status_for (some (record { text = e; wraps = none })))

  pub clear_cookie-Kept : (b : Bool) → Kept (when b (clear_cookie cfg))
  clear_cookie-Kept true = (λ _. inl (inl refl), secure cfg.cookie_secure)
    where
      secure :
          (b : Bool) → Kept (if b then add "Set-Cookie" (clear_line cfg +s "; Secure") ∷ [] else [])
      secure true = (λ _. inl (inr refl), tt)
      secure false = tt
  clear_cookie-Kept false = tt

  pub session_cookie-Kept :
      (value : String) → (value ≢ "" → G (cookie_line cfg value)) → Kept (session_cookie cfg value)
  unfolding session_cookie
  session_cookie-Kept value granted =
      All-when (ActOk Fine) (not (value == "")) (add "Set-Cookie" (cookie_line cfg value) ∷ [])
        λ given. ((λ _. inr (granted (ne_of_==-false value "" (ground arith)))), tt)

  pub append-Kept : (xs ys : List Act) → Kept xs → Kept ys → Kept (xs ++ ys)
  append-Kept = All-append (ActOk Fine)

  pub origin-Kept : (origins : List String) (origin : String) → Kept (listed_origin origins origin)
  origin-Kept [] origin = tt
  origin-Kept (o ∷ os) origin =
      if_both Kept (o == "*" || o == origin) (set "Access-Control-Allow-Origin" o ∷ []) _
        (ground arith) (origin-Kept os origin)

  pub ended-Kept :
      (r : Request) (answer : Result LoginEndResponse)
      → ((resp : LoginEndResponse)
          → answer ≡ ok resp
          → resp.set_cookie_value ≢ ""
          → G (cookie_line cfg resp.set_cookie_value))
      → Kept (ended s r answer)
  ended-Kept r (err e) made = service_error-Kept e
  ended-Kept r (ok resp) made =
      append-Kept
        (when resp.clear_cookie (clear_cookie cfg) ++ session_cookie cfg resp.set_cookie_value) _
        (append-Kept (when resp.clear_cookie (clear_cookie cfg))
          (session_cookie cfg resp.set_cookie_value) (clear_cookie-Kept resp.clear_cookie)
          (session_cookie-Kept resp.set_cookie_value (made resp refl)))
        (ground arith)

  pub me_shown-Kept : (b : Bool) (u : Option SessionUser) → Kept (me_of s b u)
  me_shown-Kept true (some u) = ground arith
  me_shown-Kept true none = ground arith
  me_shown-Kept false u = ground arith

  pub logged_out-Kept :
      (r : Request) (answer : Result LogoutResponse) → Kept (logged_out s r answer)
  logged_out-Kept r (err e) = service_error-Kept e
  logged_out-Kept r (ok resp) =
      append-Kept (when resp.clear_cookie (clear_cookie cfg)) _
        (clear_cookie-Kept resp.clear_cookie) (ground arith)

  pub started-Kept : (r : Request) (answer : Result String) → Kept (started s r answer)
  started-Kept r (err e) = service_error-Kept e
  started-Kept r (ok url) = ground arith

  pub refresh_shown-Kept :
      (answer : Result RefreshResponse)
      → ((resp : RefreshResponse)
          → answer ≡ ok resp
          → resp.refreshed ≡ true
          → G (cookie_line cfg resp.set_cookie_value))
      → Kept (refresh_shown s answer)
  refresh_shown-Kept (err e) made = ground arith
  refresh_shown-Kept (ok resp) made =
      append-Kept (when resp.refreshed (session_cookie cfg resp.set_cookie_value))
        (write_header 200 ∷ [])
        (All-when (ActOk Fine) resp.refreshed (session_cookie cfg resp.set_cookie_value)
          λ fresh. session_cookie-Kept resp.set_cookie_value (λ _. made resp refl fresh))
        (tt, tt)

  pub resolved-Kept :
      (answer : Result Resolved)
      → ((x : Resolved) → answer ≡ ok x → x.set_cookie_value ≡ "")
      → Kept (resolved_shown s answer)
  resolved-Kept (err e) none_set = ground arith
  resolved-Kept (ok x) none_set =
      append-Kept (session_cookie cfg x.set_cookie_value) _
        (session_cookie-Kept x.set_cookie_value (λ given. absurd (given (none_set x refl))))
        (ground arith)

  pub patched-Kept : (answer : Result (Unit {0})) → Kept (patched s answer)
  patched-Kept (err e) = service_error-Kept e
  patched-Kept (ok u) = (tt, tt)

  pub pinged-Kept : (answer : Result (Unit {0}) × W) → Kept (pinged s answer).0
  pinged-Kept (ok u, later) = ground arith
  pinged-Kept (err e, later) = ground arith

  pub ready-Kept : (p : Option (W → Result (Unit {0}) × W)) (w : W) → Kept (ready s p w).0
  ready-Kept none w = ground arith
  ready-Kept (some p) w = pinged-Kept (p w)
