-- ===== src/Agent/Refresh/Laws.antt =====
-- A refresh that stops early gives no new tokens.
use authsentinel.Base.{
  ◌≡◌, refl, Bool, true, false, String, Option, none, some, Result, ok, err, inl, inr, Bool-cases,
  ◌==◌, ℤ,
}
use authsentinel.Agent.Config.{Config}
use authsentinel.Agent.Deps.{Deps, ProviderTokens}
use authsentinel.Agent.Flow.Laws.{
  Stops, bind-Stops, checked-Stops, call-Stops, pure-Stops, stop-Stops, deferred-Stops,
}
use authsentinel.Agent.Login.Laws.{expiry-Stops}
use authsentinel.Agent.Refresh.{
  RefreshResponse, found, locked, new_claims, exchange, under_lock, when_due, with_session,
  refresh_flow,
}
use authsentinel.Session.{Session, needs_refresh}

-- An answer that gives no new tokens
abbrev pub NoTokens : Result RefreshResponse → Type 0
NoTokens (ok r) = r.refreshed ≡ false
NoTokens (err _) = Unit

module _ {S X : Type 0} (d : Deps S X) (cfg : Config) where
  open d use {stores, outside, cookie}

  new_claims-Stops :
      (sess : Session) (tokens : ProviderTokens) → Stops NoTokens (new_claims d cfg sess tokens)
  unfolding new_claims
  new_claims-Stops sess tokens = elim (Bool-cases (tokens.id_token == "")) [
    | inl e ↦ rw e (pure-Stops NoTokens _)
    | inr e ↦ rw e (bind-Stops NoTokens (call-Stops NoTokens _) (λ _. pure-Stops NoTokens _))
  ]

  exchange-Stops : (id : String) (sess : Session) → Stops NoTokens (exchange d cfg id sess)
  unfolding exchange
  exchange-Stops id sess = bind-Stops NoTokens (checked-Stops NoTokens _ _ (λ _. tt)) λ tokens.
      bind-Stops NoTokens (expiry-Stops d cfg NoTokens tokens) λ at.
        bind-Stops NoTokens (new_claims-Stops sess tokens) λ claims.
          bind-Stops NoTokens (checked-Stops NoTokens _ _ (λ _. tt)) λ _.
            bind-Stops NoTokens (checked-Stops NoTokens _ _ (λ _. tt)) λ _. pure-Stops NoTokens _

  locked-Stops : (o : Result Bool) → Stops NoTokens (locked d cfg o)
  unfolding locked
  locked-Stops (ok true) = pure-Stops NoTokens _
  locked-Stops (ok false) = stop-Stops NoTokens _ refl
  locked-Stops (err _) = stop-Stops NoTokens _ refl

  when_due-Stops :
      (id : String) (sess : Session) (now : ℤ) → Stops NoTokens (when_due d cfg id sess now)
  unfolding when_due
  when_due-Stops id sess now =
      elim (Bool-cases (needs_refresh sess now cfg.session_refresh_early_seconds)) [
        | inl e ↦ rw e (
            unfold under_lock in
            bind-Stops NoTokens (call-Stops NoTokens _) λ got.
              bind-Stops NoTokens (locked-Stops got)
                λ _. deferred-Stops NoTokens _ (exchange-Stops id sess))
        | inr e ↦ rw e (stop-Stops NoTokens _ refl)
      ]

  found-Stops : (o : Option Session) → Stops NoTokens (found d cfg o)
  unfolding found
  found-Stops none = stop-Stops NoTokens _ tt
  found-Stops (some _) = pure-Stops NoTokens _

  with_session-Stops : (id : String) (sess : Session) → Stops NoTokens (with_session d cfg id sess)
  unfolding with_session
  with_session-Stops id sess = elim (Bool-cases (sess.refresh_token == "")) [
    | inl e ↦ rw e (stop-Stops NoTokens _ tt)
    | inr e ↦ rw e (bind-Stops NoTokens (call-Stops NoTokens _) (when_due-Stops id sess))
  ]

  pub refresh_flow-Stops :
      (session_cookie : String) → Stops NoTokens (refresh_flow d cfg session_cookie)
  unfolding refresh_flow
  refresh_flow-Stops session_cookie = elim (Bool-cases (session_cookie == "")) [
    | inl e ↦ rw e (stop-Stops NoTokens _ tt)
    | inr e ↦ rw e (
        bind-Stops NoTokens (checked-Stops NoTokens _ _ (λ _. tt)) λ id.
          bind-Stops NoTokens (checked-Stops NoTokens _ _ (λ _. tt))
            λ o. bind-Stops NoTokens (found-Stops o) (with_session-Stops id))
  ]
