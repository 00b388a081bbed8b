-- ===== src/Agent/Login/Laws.antt =====
-- What a successful login has gone through.
use authsentinel.Base.{
  ◌≡◌, refl, ◌||◌, not, String, Option, none, some, Result, ok, err, inl, inr, Bool-cases, ◌==◌,
  leb_ℤ, pos,
}
use authsentinel.Agent.Config.{Config}
use authsentinel.Agent.Deps.{Deps, ProviderTokens}
use authsentinel.Agent.Flow.Laws.{
  Stops, bind-Stops, checked-Stops, call-Stops, pure-Stops, stop-Stops,
}
use authsentinel.Agent.Login.{
  LoginEndRequest, LoginEndResponse, expiry, consume, take_pkce, authenticate, new_session,
  open_session, complete, login_end_flow,
}
use authsentinel.Session.{Session, PkceState}
use authsentinel.Token.Claims.{Principal}

-- A response that sets no session cookie
abbrev pub NoCookie : Result LoginEndResponse → Type 0
NoCookie (ok r) = r.set_cookie_value ≡ ""
NoCookie (err _) = Unit

module _ {S X : Type 0} (d : Deps S X) (cfg : Config) where
  open d use {stores, outside, cookie}

  consume-Stops : (state : String) (o : Option PkceState) → Stops NoCookie (consume d cfg state o)
  unfolding consume
  consume-Stops state none = stop-Stops NoCookie _ refl
  consume-Stops state (some p) =
      bind-Stops NoCookie (call-Stops NoCookie _) (λ _. pure-Stops NoCookie _)

  take_pkce-Stops : (state : String) → Stops NoCookie (take_pkce d cfg state)
  unfolding take_pkce
  take_pkce-Stops state =
      bind-Stops NoCookie (checked-Stops NoCookie _ _ (λ _. refl)) (consume-Stops state)

  authenticate-Stops : (code : String) (p : PkceState) → Stops NoCookie (authenticate d cfg code p)
  unfolding authenticate
  authenticate-Stops code p = bind-Stops NoCookie (checked-Stops NoCookie _ _ (λ _. refl)) λ tokens.
      bind-Stops NoCookie (checked-Stops NoCookie _ _ (λ _. refl))
        λ principal. pure-Stops NoCookie _

  pub expiry-Stops :
      {R : Type 0} (P : R → Type 0) (tokens : ProviderTokens) → Stops P (expiry d cfg tokens)
  unfolding expiry
  expiry-Stops P tokens = bind-Stops P (call-Stops P _) λ now.
      elim (Bool-cases (leb_ℤ tokens.expires_in (pos 0))) [
        | inl e ↦ rw e (bind-Stops P (call-Stops P _) (λ _. pure-Stops P _))
        | inr e ↦ rw e (pure-Stops P _)
      ]

  new_session-Stops :
      (tokens : ProviderTokens) (p : Principal) → Stops NoCookie (new_session d cfg tokens p)
  unfolding new_session
  new_session-Stops tokens p =
      bind-Stops NoCookie (expiry-Stops NoCookie tokens)
        λ at. bind-Stops NoCookie (checked-Stops NoCookie _ _ (λ _. tt)) λ id. pure-Stops NoCookie _

  open_session-Stops :
      (req : LoginEndRequest) (p : PkceState) (principal : Principal) (sess : Session)
      → Stops NoCookie (open_session d cfg req p principal sess)
  unfolding open_session
  open_session-Stops req p principal sess =
      bind-Stops NoCookie (checked-Stops NoCookie _ _ (λ _. tt)) λ _.
        bind-Stops NoCookie (call-Stops NoCookie _)
          λ _. bind-Stops NoCookie (checked-Stops NoCookie _ _ (λ _. tt)) λ _. pure-Stops NoCookie _

  pub complete-Stops : (req : LoginEndRequest) → Stops NoCookie (complete d cfg req)
  unfolding complete
  complete-Stops req = bind-Stops NoCookie (take_pkce-Stops req.state) λ p.
      bind-Stops NoCookie (authenticate-Stops req.code p) λ auth.
        bind-Stops NoCookie (new_session-Stops auth.0 auth.1)
          λ sess. open_session-Stops req p auth.1 sess

  pub login_end_flow-Stops : (req : LoginEndRequest) → Stops NoCookie (login_end_flow d cfg req)
  unfolding login_end_flow
  login_end_flow-Stops req = elim (Bool-cases (not (req.error == ""))) [
    | inl failed ↦ rw failed (stop-Stops NoCookie _ refl)
    | inr fine ↦ elim (Bool-cases (req.state == "" || req.code == "")) [
      | inl missing ↦ rw (fine, missing) (stop-Stops NoCookie _ refl)
      | inr given ↦ rw (fine, given) (complete-Stops req)
    ]
  ]
