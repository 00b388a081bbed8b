-- ===== src/Agent/Login/Authenticated.antt =====
-- A login that sets a session cookie, read back step by step.
use authsentinel.Base.{
  ◌≡◌, sym, ◌≢◌, ◌∙◌, ap, subst, ◌||◌, not, String, Option, none, some, ok, ok_injective, inl, inr,
  arith, Bool-cases, ◌==◌, eq_iff,
}
use authsentinel.Agent.Config.{Config}
use authsentinel.Agent.Deps.{Deps, ProviderTokens}
use authsentinel.Agent.Flow.{World, go}
use authsentinel.Agent.Flow.Laws.{
  run_cases, >>=-go, checked-go, call-go, checked_store-go, checked_env-go, >>=-elim, pure-go,
  stop-go, on_store-eq,
}
use authsentinel.Agent.Login.{
  LoginEndRequest, LoginEndResponse, audience, validated_or_base, session_claims, consume,
  take_pkce, authenticate, new_session, open_session, complete, login_end_flow, login_end,
}
use authsentinel.Agent.Login.Laws.{login_end_flow-Stops}
use authsentinel.Agent.Login.Store.{notify-store, authenticate-store, new_session-store}
use authsentinel.Session.{Session, PkceState}
use authsentinel.Token.Claims.{Principal}
use authsentinel.Token.IdToken.{validate_id_token}

module _ {S X : Type 0} (d : Deps S X) (cfg : Config) where
  open d use {stores, outside, cookie}

  -- The steps behind a response: `found` is the PKCE state kept at the start of the login.
  pub record Authenticated (req : LoginEndRequest) (w : World S X) (resp : LoginEndResponse)
      (w' : World S X) : Type 0 where
    pub found : PkceState
    pub tokens : ProviderTokens
    pub principal : Principal
    pub sess : Session
    pub after_get : S
    pub before_exchange : X
    pub after_exchange : X
    pub after_validation : X
    pub before_set : S
    pub no_error : req.error ≡ ""
    pub looked_up : stores.pkce_get req.state w.store ≡ (ok (some found), after_get)
    pub consumed : before_set ≡ (stores.pkce_delete req.state after_get).1
    pub exchanged :
        outside.exchange_code req.code found.code_verifier cfg.oidc_redirect_uri before_exchange
        ≡ (ok tokens, after_exchange)
    pub id_token_valid :
        validate_id_token outside.jwt tokens.id_token cfg.oidc_issuer
          (audience d cfg)
          found.nonce
          after_exchange
        ≡ (ok principal, after_validation)
    pub keeps_tokens :
        (sess.access_token ≡ tokens.access_token)
        × (sess.refresh_token ≡ tokens.refresh_token)
        × (sess.claims ≡ session_claims d cfg principal)
    pub session_stored :
        stores.session_set sess.id sess cfg.session_ttl_seconds before_set ≡ (ok tt, w'.store)
    pub cookie_encoded : cookie.encode sess.id ≡ ok resp.set_cookie_value
    pub redirected : resp.redirect_url ≡ validated_or_base d cfg found.redirect_to

  consume-go :
      (state : String) (o : Option PkceState) (w : World S X) {p : PkceState} {w' : World S X}
      → consume d cfg state o w ≡ (go p, w')
      → (o ≡ some p) × (w'.store ≡ (stores.pkce_delete state w.store).1)
  unfolding consume
  consume-go state none w h = absurd (stop-go _ w h)
  consume-go state (some p) w h =
      let (u, w₁, gone, next) = >>=-go _ _ w h in
      let (same, same_world) = pure-go p w₁ next in
      (
        ap some same,
        sym (ap (λ (v : World S X). v.store) same_world)
            ∙ sym (ap (λ r. r.1) (on_store-eq (stores.pkce_delete state) w (call-go _ w gone)).0),
      )

  take_pkce-go :
      (state : String) (w : World S X) {p : PkceState} {w' : World S X}
      → take_pkce d cfg state w ≡ (go p, w')
      → (s : S) × (stores.pkce_get state w.store ≡ (ok (some p), s))
        × (w'.store ≡ (stores.pkce_delete state s).1)
  unfolding take_pkce
  take_pkce-go state w {p} h =
      let (o, w₁, got, next) = >>=-go _ _ w h in
      let read : stores.pkce_get state w.store ≡ (ok o, w₁.store) =
        (on_store-eq (stores.pkce_get state) w (checked-go _ _ w got)).0 in
      let (present, deleted) = consume-go state o w₁ next in
      (w₁.store, rw (← present) read, deleted)

  authenticate-go :
      (code : String) (p : PkceState) (w : World S X) {tokens : ProviderTokens}
      {principal : Principal} {w' : World S X}
      → authenticate d cfg code p w ≡ (go (tokens, principal), w')
      → (x₁ : X) × (x₂ : X) × (outside.exchange_code code p.code_verifier cfg.oidc_redirect_uri
            w.env
          ≡ (ok tokens, x₁))
        × (validate_id_token outside.jwt tokens.id_token cfg.oidc_issuer (audience d cfg) p.nonce x₁
            ≡ (ok principal, x₂))
  unfolding authenticate
  authenticate-go code p w h = >>=-elim _ _ w h λ t w₁ got next.
      >>=-elim _ _ w₁ next λ q w₂ valid last.
        let same = (pure-go (t, q) w₂ last).0 in
        let exchange = outside.exchange_code code p.code_verifier cfg.oidc_redirect_uri in
        let validate = λ (tokens : ProviderTokens).
          validate_id_token outside.jwt tokens.id_token cfg.oidc_issuer (audience d cfg) p.nonce in
        let second : validate t w₁.env ≡ (ok q, w₂.env) = checked_env-go _ (validate t) w₁ valid in
        (
          w₁.env,
          w₂.env,
          checked_env-go _ exchange w got ∙ ap (λ r. (ok (r.0), w₁.env)) same,
          subst (λ r. validate r.0 w₁.env ≡ (ok r.1, w₂.env)) same second,
        )

  new_session-go :
      (tokens : ProviderTokens) (p : Principal) (w : World S X) {sess : Session} {w' : World S X}
      → new_session d cfg tokens p w ≡ (go sess, w')
      → (sess.access_token ≡ tokens.access_token)
        × (sess.refresh_token ≡ tokens.refresh_token)
        × (sess.claims ≡ session_claims d cfg p)
  unfolding new_session
  new_session-go tokens p w h = >>=-elim _ _ w h λ at w₁ _ next.
      >>=-elim _ _ w₁ next λ id w₂ _ last.
        let same = (pure-go _ w₂ last).0 in
        (
          sym (ap (λ s. s.access_token) same),
          sym (ap (λ s. s.refresh_token) same),
          sym (ap (λ s. s.claims) same),
        )

  open_session-go :
      (req : LoginEndRequest) (p : PkceState) (principal : Principal) (sess : Session)
      (w : World S X) {resp : LoginEndResponse} {w' : World S X}
      → open_session d cfg req p principal sess w ≡ (go (ok resp), w')
      → (stores.session_set sess.id sess cfg.session_ttl_seconds w.store ≡ (ok tt, w'.store))
        × (cookie.encode sess.id ≡ ok resp.set_cookie_value)
        × (resp.redirect_url ≡ validated_or_base d cfg p.redirect_to)
  unfolding open_session
  open_session-go req p principal sess w {w' = w'} h = >>=-elim _ _ w h λ u w₁ set next.
      >>=-elim _ _ w₁ next λ v w₂ told next'. >>=-elim _ _ w₂ next' λ value w₃ enc last.
        let same = ok_injective (pure-go _ w₃ last).0 in
        let same_world : w₂ ≡ w' = ap (λ r. r.1) (checked-go _ _ w₂ enc) ∙ (pure-go _ w₃ last).1 in
        let same_store : w₁.store ≡ w'.store =
          sym (notify-store d cfg req sess principal w₁ (call-go _ w₁ told))
          ∙ ap (λ (v : World S X). v.store) same_world in
        (
          checked_store-go _ (stores.session_set sess.id sess cfg.session_ttl_seconds) w set
              ∙ ap (λ s. (ok tt, s)) same_store,
          ap (λ r. r.0) (checked-go _ _ w₂ enc) ∙ ap (λ r. ok r.set_cookie_value) same,
          sym (ap (λ r. r.redirect_url) same),
        )

  complete-go :
      (req : LoginEndRequest) (w : World S X) {resp : LoginEndResponse} {w' : World S X}
      → req.error ≡ ""
      → complete d cfg req w ≡ (go (ok resp), w')
      → Authenticated req w resp w'
  unfolding complete
  complete-go req w no_error h = >>=-elim _ _ w h λ p w₁ first next.
      >>=-elim _ _ w₁ next λ (tokens, principal) w₂ second next'.
        >>=-elim _ _ w₂ next' λ sess w₃ third last.
          let (after_get, looked_up, deleted) = take_pkce-go req.state w first in
          let (after_exchange, after_validation, exchanged, valid) =
            authenticate-go req.code p w₁ second in
          let (stored, encoded, redirected) = open_session-go req p principal sess w₃ last in
          record {
            found = p;
            tokens = tokens;
            principal = principal;
            sess = sess;
            after_get = after_get;
            before_exchange = w₁.env;
            after_exchange = after_exchange;
            after_validation = after_validation;
            before_set = w₃.store;
            consumed =
                new_session-store d cfg tokens principal w₂ third
                ∙ authenticate-store d cfg req.code p w₁ second
                ∙ deleted;
            no_error = no_error;
            looked_up = looked_up;
            exchanged = exchanged;
            id_token_valid = valid;
            keeps_tokens = new_session-go tokens principal w₂ third;
            session_stored = stored;
            cookie_encoded = encoded;
            redirected = redirected;
          }

  login_end_flow-go :
      (req : LoginEndRequest) (w : World S X) {resp : LoginEndResponse} {w' : World S X}
      → login_end_flow d cfg req w ≡ (go (ok resp), w')
      → Authenticated req w resp w'
  unfolding login_end_flow
  login_end_flow-go req w h = elim (Bool-cases (not (req.error == ""))) [
    | inl failed ↦ absurd (stop-go _ w (rw failed at h))
    | inr fine ↦ elim (Bool-cases (req.state == "" || req.code == "")) [
      | inl missing ↦ absurd (stop-go _ w (rw (fine, missing) at h))
      | inr given ↦
          let no_error : req.error ≡ "" = ground (arith, eq_iff req.error "") in
          complete-go req w no_error (rw (fine, given) at h)
    ]
  ]

  -- A login ends with a session cookie only if the provider reported no error, PKCE state was kept
  -- for the request's state, the provider exchanged the code against the kept verifier, the ID token
  -- that it gave was valid for the configured issuer and audience and the kept nonce, and a session
  -- with those tokens and the token's claims was stored under the id that the cookie encodes. The
  -- browser is then sent to the redirect kept with the PKCE state, validated again.
  pub login_end-Authenticated :
      (req : LoginEndRequest) (w : World S X) (resp : LoginEndResponse) (w' : World S X)
      → login_end d cfg req w ≡ (ok resp, w')
      → resp.set_cookie_value ≢ ""
      → Authenticated req w resp w'
  unfolding login_end
  login_end-Authenticated req w resp w' h cookie_set =
      elim (run_cases (login_end_flow d cfg req) w h) [
        | inl early ↦ absurd (cookie_set ((login_end_flow-Stops d cfg req).holds w _ w' early))
        | inr late ↦ login_end_flow-go req w late
      ]
