-- ===== src/Session/Browser.antt =====
-- BrowserSessionManager and SessionFromCookie of pkg/session/store.go. `cookies` is r.Cookie; the
-- cookies that are handed to http.SetCookie are listed.
pub mod Resolves
use authsentinel.Base.{
  String, List, [], ◌∷◌, Option, none, some, Result, ok, err, ℤ, negsuc, if◌then◌else◌, ◌==◌,
}
use authsentinel.Agent.Deps.{Stores}
use authsentinel.Cookie.Model.{
  Codec, CookieOptions, OutCookie, SessionCookieConfig, options, write_out_cookie,
}
use authsentinel.Session.{Session, KeyLayout}

pub record BrowserSessionManager (S : Type 0) : Type 0 where
  pub store : Stores S
  pub codec : Codec
  pub cookie_config : SessionCookieConfig
  pub key_layout : KeyLayout

module _ {S : Type 0} (m : BrowserSessionManager S) where
  abbrev pub Answer : Type 0
  Answer = Result (Unit {0}) × List OutCookie × S

  abbrev pub out_cookie : String → CookieOptions → OutCookie
  out_cookie value opts =
      write_out_cookie (record { name = m.cookie_config.name; value = value; options = opts })

  abbrev pub issued : Result String → S → Answer
  issued (err e) s = (err e, [], s)
  issued (ok value) s = (ok tt, out_cookie value (options m.cookie_config) ∷ [], s)

  abbrev pub persisted : Session → Result (Unit {0}) × S → Answer
  persisted sess (err e, s) = (err e, [], s)
  persisted sess (ok _, s) = issued (m.codec.encode_id sess.id) s

  unfoldable pub start_session : Option Session → ℤ → S → Answer
  start_session none ttl s = (ok tt, [], s)
  start_session (some sess) ttl s =
      if sess.id == ""
      then (ok tt, [], s)
      else persisted sess (m.store.session_set sess.id sess ttl s)

  abbrev pub session_at : Result String → S → Result (Option Session) × S
  session_at (err e) s = (ok none, s)
  session_at (ok id) s = if id == "" then (ok none, s) else m.store.session_get id s

  abbrev pub session_of : Option String → S → Result (Option Session) × S
  session_of none s = (ok none, s)
  session_of (some value) s =
      if value == "" then (ok none, s) else session_at (m.codec.decode_id value) s

  unfoldable pub resolve_session : (String → Option String) → S → Result (Option Session) × S
  resolve_session cookies s = session_of (cookies m.cookie_config.name) s

  abbrev pub drop_at : Result String → S → S
  drop_at (err e) s = s
  drop_at (ok id) s = if id == "" then s else (m.store.session_delete id s).1

  abbrev pub drop_of : Option String → S → S
  drop_of none s = s
  drop_of (some value) s = if value == "" then s else drop_at (m.codec.decode_id value) s

  unfoldable pub end_session : (String → Option String) → S → Answer
  end_session cookies s = (
    ok tt,
    out_cookie "" (record (options m.cookie_config) { max_age = negsuc 0 }) ∷ [],
    drop_of (cookies m.cookie_config.name) s,
  )

abbrev loaded_session : {S : Type 0} → Stores S → Result String → S → Result (Option Session) × S
loaded_session store (err e) s = (err e, s)
loaded_session store (ok id) s = store.session_get id s

unfoldable pub session_from_cookie :
    {S : Type 0} → Stores S → String → (String → Result String) → S → Result (Option Session) × S
session_from_cookie store value decode_cookie s =
    if value == "" then (ok none, s) else loaded_session store (decode_cookie value) s
