-- ===== src/Agent/Login/Once.antt =====
-- The PKCE state of a login is good for one login.
use authsentinel.Base.{◌≡◌, sym, ap, ◌∙◌, ◌≢◌, none, ok, arith}
use authsentinel.Agent.Config.{Config}
use authsentinel.Agent.Deps.{Deps}
use authsentinel.Agent.Deps.Laws.{PkceLaws}
use authsentinel.Agent.Flow.{World, run}
use authsentinel.Agent.Login.{
  LoginEndRequest, LoginEndResponse, error_redirect, login_end_flow, complete, login_end,
}
use authsentinel.Agent.Login.Authenticated.{login_end-Authenticated}

module _ {S X : Type 0} (d : Deps S X) (cfg : Config) where
  open d use {stores}

  -- Where no PKCE state is found the login ends at the error page, without a cookie.
  login_end-unknown :
      (req : LoginEndRequest) (w : World S X)
      → (stores.pkce_get req.state w.store).0 ≡ ok none
      → (login_end d cfg req w).0 ≡ error_redirect d cfg
  unfolding login_end login_end_flow complete run
  login_end-unknown req w missing = ground arith

  module _ (laws : PkceLaws stores) where
    -- After a login that set a cookie, a second one with the same state ends at the error page and sets
    -- no cookie, whatever else it brings, if the store deletes
    -- what it is told to delete and storing a session does not bring it back.
    pub login_end-once :
        (req again : LoginEndRequest) (w : World S X) (resp : LoginEndResponse) (w' : World S X)
        → login_end d cfg req w ≡ (ok resp, w')
        → resp.set_cookie_value ≢ ""
        → again.state ≡ req.state
        → (login_end d cfg again w').0 ≡ error_redirect d cfg
    login_end-once req again w resp w' h set same =
        let a = login_end-Authenticated d cfg req w resp w' h set in
        let last_write = ap (λ r. r.1) a.session_stored in
        let gone : (stores.pkce_get req.state w'.store).0 ≡ ok none =
          ap (λ s. (stores.pkce_get req.state s).0) (sym last_write)
          ∙ laws.get-session_set req.state a.sess.id a.sess cfg.session_ttl_seconds a.before_set
          ∙ ap (λ s. (stores.pkce_get req.state s).0) a.consumed
          ∙ laws.get-delete req.state a.after_get in
        login_end-unknown again w' (ap (λ k. (stores.pkce_get k w'.store).0) same ∙ gone)
