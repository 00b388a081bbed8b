-- ===== src/Agent/Sessions/Laws.antt =====
-- Which cookies the session endpoints accept.
use authsentinel.Base.{
  succeeded, ◌≡◌, ◌≢◌, String, some, ok, inl, inr, Result-cases, Option-cases, arith, eq_iff,
}
use authsentinel.Agent.Config.{Config}
use authsentinel.Agent.Deps.{Deps}
use authsentinel.Agent.Flow.{World, run}
use authsentinel.Agent.Sessions.{SessionUser, session_to_user, session, resolve}
use authsentinel.Session.{Session}

module _ {S X : Type 0} (d : Deps S X) (cfg : Config) (session_cookie : String)
    (w : World S X) where
  open d use {stores, cookie}

  -- The session endpoint names a user only for a cookie that decodes to the id of a stored session,
  -- and the user is the one that this session describes.
  pub session-user :
      (u : SessionUser)
      → (session d cfg session_cookie w).0.user ≡ some u
      → (session_cookie ≢ "")
        × (id : String) × (sess : Session) × (cookie.decode session_cookie ≡ ok id)
        × ((stores.session_get id w.store).0 ≡ ok (some sess))
        × (u ≡ session_to_user sess)
  unfolding session run
  session-user u h = elim (Result-cases (cookie.decode session_cookie)) [
    | inl (id, decoded) ↦ elim (Result-cases (stores.session_get id w.store).0) [
      | inl (o, loaded) ↦ elim (Option-cases o) [
        | inl missing ↦ absurd (ground (arith, eq_iff session_cookie ""))
        | inr (sess, present) ↦ (
          ground (arith, eq_iff session_cookie ""),
          id,
          sess,
          decoded,
          ground arith,
          ground (arith, eq_iff session_cookie ""),
        )
      ]
      | inr (e, failed) ↦ absurd (ground (arith, eq_iff session_cookie ""))
    ]
    | inr (e, failed) ↦ absurd (ground (arith, eq_iff session_cookie ""))
  ]

  -- The session endpoint and the resolve endpoint accept the same cookies in the same states, and
  -- leave the same state: a browser is authenticated exactly when the proxy obtains its session.
  pub session-resolve :
      ((session d cfg session_cookie w).0.is_authenticated
        ≡ succeeded (resolve d cfg session_cookie w).0)
      × ((session d cfg session_cookie w).1 ≡ (resolve d cfg session_cookie w).1)
  unfolding session resolve run
  session-resolve = ground arith
