-- ===== src/Agent/Refresh/Refreshed.antt =====
-- A refresh that gives new tokens, read back step by step.
use authsentinel.Base.{
  ◌≡◌, refl, ap, subst, ◌∙◌, ◌≢◌, Bool, true, false, String, Option, none, some, Result, ok, err,
  ok_injective, inl, inr, arith, Bool-cases, ◌==◌, ne_of_==-false, ℤ,
}
use authsentinel.Agent.Config.{Config}
use authsentinel.Agent.Deps.{Deps, ProviderTokens}
use authsentinel.Agent.Flow.{World, go}
use authsentinel.Agent.Flow.Laws.{
  run_cases, >>=-elim, checked-go, checked_store-go, checked_env-go, call-go, pure-go, stop-go,
  deferred-go, on_store-eq, on_env-eq,
}
use authsentinel.Agent.Refresh.{
  RefreshResponse, found, locked, with_tokens, exchange, release, under_lock, when_due,
  with_session, refresh_flow, refresh,
}
use authsentinel.Agent.Refresh.Laws.{refresh_flow-Stops}
use authsentinel.Session.{Session, needs_refresh}
use authsentinel.Value.{Claims}

module _ {S X : Type 0} (d : Deps S X) (cfg : Config) where
  open d use {stores, outside, cookie}

  -- What has happened when the lock is given back.
  pub record Exchanged (id : String) (sess : Session) (w : World S X) (resp : RefreshResponse)
      (w' : World S X) : Type 0 where
    pub tokens : ProviderTokens
    pub expires_at : ℤ
    pub claims : Claims
    pub after_refresh : X
    pub before_set : S
    pub exchanged : outside.provider_refresh sess.refresh_token w.env ≡ (ok tokens, after_refresh)
    pub stored :
        stores.session_set id
          (with_tokens d cfg sess tokens expires_at claims)
          cfg.session_ttl_seconds
          before_set
        ≡ (ok tt, w'.store)
    pub encoded : cookie.encode id ≡ ok resp.set_cookie_value

  exchange-go :
      (id : String) (sess : Session) (w : World S X) {resp : RefreshResponse} {w' : World S X}
      → exchange d cfg id sess w ≡ (go (ok resp), w')
      → Exchanged id sess w resp w'
  unfolding exchange
  exchange-go id sess w {w' = w'} h = >>=-elim _ _ w h λ tokens w₁ first h₁.
      >>=-elim _ _ w₁ h₁ λ at w₂ _ h₂. >>=-elim _ _ w₂ h₂ λ claims w₃ _ h₃.
        >>=-elim _ _ w₃ h₃ λ u w₄ set h₄. >>=-elim _ _ w₄ h₄ λ value w₅ enc last.
          let same = ok_injective (pure-go _ w₅ last).0 in
          let next = with_tokens d cfg sess tokens at claims in
          let coded = checked-go _ _ w₄ enc in
          record {
            tokens = tokens;
            expires_at = at;
            claims = claims;
            after_refresh = w₁.env;
            before_set = w₃.store;
            exchanged = checked_env-go _ (outside.provider_refresh sess.refresh_token) w first;
            stored =
                checked_store-go _ (stores.session_set id next cfg.session_ttl_seconds) w₃ set
                ∙ ap (λ (v : World S X). (ok u, v.store))
                    (ap (λ r. r.1) coded ∙ (pure-go _ w₅ last).1);
            encoded = ap (λ r. r.0) coded ∙ ap (λ r. ok r.set_cookie_value) same;
          }

  locked-go :
      (o : Result Bool) (w : World S X) {u : Unit {0}} {w' : World S X}
      → locked d cfg o w ≡ (go u, w')
      → (o ≡ ok true) × (w ≡ w')
  unfolding locked
  locked-go (ok true) w h = (refl, (pure-go tt w h).1)
  locked-go (ok false) w h = absurd (stop-go _ w h)
  locked-go (err _) w h = absurd (stop-go _ w h)

  -- The lock is obtained from `s`, and given back after the exchange.
  pub record Locked (id : String) (sess : Session) (s : S) (resp : RefreshResponse) (s' : S)
      : Type 0 where
    pub locked_at : World S X
    pub before_release : World S X
    pub obtained :
        stores.lock_obtain id cfg.session_refresh_lock_ttl_seconds s ≡ (ok true, locked_at.store)
    pub exchanged : Exchanged id sess locked_at resp before_release
    pub released : (stores.lock_release id before_release.store).1 ≡ s'

  under_lock-go :
      (id : String) (sess : Session) (w : World S X) {resp : RefreshResponse} {w' : World S X}
      → under_lock d cfg id sess w ≡ (go (ok resp), w')
      → Locked id sess w.store resp w'.store
  unfolding under_lock release
  under_lock-go id sess w h = >>=-elim _ _ w h λ got w₁ first h₁.
      >>=-elim _ _ w₁ h₁ λ u w₂ second h₂.
        let (w₃, body, done) = deferred-go _ _ w₂ h₂ in
        let (is_locked, same) = locked-go got w₁ second in
        record {
          locked_at = w₂;
          before_release = w₃;
          obtained =
              (on_store-eq (stores.lock_obtain id cfg.session_refresh_lock_ttl_seconds) w
                (call-go _ w first)).0
              ∙ ap (λ (o : Result Bool). (o, w₁.store)) is_locked
              ∙ ap (λ (v : World S X). (ok true, v.store)) same;
          exchanged = exchange-go id sess w₂ body;
          released = ap (λ (v : World S X). v.store) done;
        }

  pub record Refreshed (session_cookie : String) (w : World S X) (resp : RefreshResponse) (s' : S)
      : Type 0 where
    pub id : String
    pub sess : Session
    pub loaded_at : S
    pub now : ℤ
    pub decoded : cookie.decode session_cookie ≡ ok id
    pub loaded : stores.session_get id w.store ≡ (ok (some sess), loaded_at)
    pub has_token : sess.refresh_token ≢ ""
    pub due : needs_refresh sess now cfg.session_refresh_early_seconds ≡ true
    pub done : Locked id sess loaded_at resp s'

  found-go :
      (o : Option Session) (w : World S X) {sess : Session} {w' : World S X}
      → found d cfg o w ≡ (go sess, w')
      → (o ≡ some sess) × (w ≡ w')
  unfolding found
  found-go none w h = absurd (stop-go _ w h)
  found-go (some s) w h = let e = pure-go s w h in (ap some e.0, e.1)

  with_session-go :
      (id : String) (sess : Session) (w : World S X) {resp : RefreshResponse} {w' : World S X}
      → with_session d cfg id sess w ≡ (go (ok resp), w')
      → (now : ℤ) × (sess.refresh_token ≢ "")
        × (needs_refresh sess now cfg.session_refresh_early_seconds ≡ true)
        × Locked id sess w.store resp w'.store
  unfolding with_session when_due
  with_session-go id sess w {resp} {w'} h = elim (Bool-cases (sess.refresh_token == "")) [
    | inl e ↦ absurd (stop-go _ w (rw e at h))
    | inr e ↦ >>=-elim _ _ w (rw e at h) λ now w₁ first h₁.
        elim (Bool-cases (needs_refresh sess now cfg.session_refresh_early_seconds)) [
          | inl due ↦
              let kept = (on_env-eq outside.now w (call-go _ w first)).1 in
              (
                now,
                ne_of_==-false _ _ e,
                due,
                subst (λ s. Locked id sess s resp w'.store) kept
                    (under_lock-go id sess w₁ (rw due at h₁)),
              )
          | inr early ↦ absurd (stop-go _ w₁ (rw early at h₁))
        ]
  ]

  refresh_flow-go :
      (session_cookie : String) (w : World S X) {resp : RefreshResponse} {w' : World S X}
      → refresh_flow d cfg session_cookie w ≡ (go (ok resp), w')
      → Refreshed session_cookie w resp w'.store
  unfolding refresh_flow
  refresh_flow-go session_cookie w {resp} {w'} h = elim (Bool-cases (session_cookie == "")) [
    | inl e ↦ absurd (stop-go _ w (rw e at h))
    | inr e ↦ >>=-elim _ _ w (rw e at h) λ id w₁ first h₁. >>=-elim _ _ w₁ h₁ λ o w₂ second h₂.
        >>=-elim _ _ w₂ h₂ λ sess w₃ third h₃.
          let decode = checked-go _ _ w first in
          let (there, same) = found-go o w₂ third in
          let (now, has_token, due, done) = with_session-go id sess w₃ h₃ in
          let read = checked_store-go _ (stores.session_get id) w₁ second in
          record {
            id = id;
            sess = sess;
            loaded_at = w₃.store;
            now = now;
            decoded = ap (λ r. r.0) decode;
            loaded =
                ap (λ (v : World S X). stores.session_get id v.store) (ap (λ r. r.1) decode)
                ∙ read
                ∙ ap (λ (p : Option Session). (ok p, w₂.store)) there
                ∙ ap (λ (v : World S X). (ok (some sess), v.store)) same;
            has_token = has_token;
            due = due;
            done = done;
          }
  ]

  -- A refresh reports new tokens only if the cookie decodes to the id of a stored session with a
  -- refresh token that is due, the session's lock was obtained, the provider then answered to that
  -- refresh token, the session with the new tokens was stored under the same id, the cookie encodes
  -- this id, and the last thing done to the store was to give the lock back.
  pub refresh-Refreshed :
      (session_cookie : String) (w : World S X) (resp : RefreshResponse) (w' : World S X)
      → refresh d cfg session_cookie w ≡ (ok resp, w')
      → resp.refreshed ≡ true
      → Refreshed session_cookie w resp w'.store
  unfolding refresh
  refresh-Refreshed session_cookie w resp w' h new =
      elim (run_cases (refresh_flow d cfg session_cookie) w h) [
        | inl early ↦
            let none_given = (refresh_flow-Stops d cfg session_cookie).holds w _ w' early in
            absurd (ground arith)
        | inr late ↦ refresh_flow-go session_cookie w late
      ]
