-- ===== src/Agent/Login/Started.antt =====
-- What the start of a login keeps, and what it tells the provider.
use authsentinel.Base.{
  ◌≡◌, refl, sym, ap, ◌∙◌, String, Result, ok, err, inl, inr, arith, Bool-cases, ◌==◌,
  ne_of_==-false,
}
use authsentinel.Agent.Config.{Config}
use authsentinel.Agent.Deps.{Deps}
use authsentinel.Agent.Flow.{World, go}
use authsentinel.Agent.Flow.Laws.{
  run_cases, >>=-elim, checked-go, on_env-eq, on_store-eq, pure-go, Stops, bind-Stops,
  checked-Stops, pure-Stops,
}
use authsentinel.Agent.Login.{validated, validated_or_base, login_start_flow, login_start}
use authsentinel.Agent.Pkce.{Pkce, challenge_of, generate_pkce, generate_state}
use authsentinel.Agent.Redirect.Safe.{Permitted, home, validate_redirect-Permitted}
use authsentinel.Session.{PkceState}

abbrev Failed : Result String → Type 0
Failed (ok _) = ⊥
Failed (err _) = Unit

module _ {S X : Type 0} (d : Deps S X) (cfg : Config) where
  open d use {stores, outside}

  validated_or_base-Permitted :
      (target : String)
      → Permitted d.url_parse cfg.app_base_url cfg.allowed_redirect_origins
          cfg.allowed_redirect_paths
          (validated_or_base d cfg target)
  validated_or_base-Permitted target = elim (Bool-cases (validated d cfg target == "")) [
    | inl refused ↦ rw refused (home refl)
    | inr fine ↦ rw fine (
        validate_redirect-Permitted d.url_parse cfg.app_base_url cfg.allowed_redirect_origins
          cfg.allowed_redirect_paths target _ refl (ne_of_==-false _ _ fine))
  ]

  abbrev kept_for : String → Pkce → String → PkceState
  kept_for redirect_to pkce state = record {
    state = state;
    code_verifier = pkce.verifier;
    code_challenge = pkce.challenge;
    nonce = pkce.nonce;
    redirect_to = validated_or_base d cfg redirect_to;
  }

  -- A login that was started: `kept` waits in the store under its state.
  pub record Started (w : World S X) (url : String) (w' : World S X) : Type 0 where
    pub kept : PkceState
    pub after_pkce : X
    pub after_state : X
    pub pkce : Pkce
    pub generated : generate_pkce outside w.env ≡ (ok pkce, after_pkce)
    pub state_generated : generate_state outside after_pkce ≡ (ok kept.state, after_state)
    pub stored :
        stores.pkce_set kept.state kept cfg.session_pkce_ttl_seconds w.store ≡ (ok tt, w'.store)
    pub verifier_kept : (kept.code_verifier ≡ pkce.verifier) × (kept.nonce ≡ pkce.nonce)
    pub provider_told :
        outside.authorization_url kept.state
          (challenge_of outside kept.code_verifier)
          kept.nonce
          after_state
        ≡ (ok url, w'.env)
    pub permitted :
        Permitted d.url_parse cfg.app_base_url cfg.allowed_redirect_origins
          cfg.allowed_redirect_paths kept.redirect_to

  generate_pkce-challenge :
      (x : X) (p : Pkce) (x' : X)
      → generate_pkce outside x ≡ (ok p, x')
      → p.challenge ≡ challenge_of outside p.verifier
  unfolding generate_pkce
  generate_pkce-challenge x p x' h = ground arith

  login_start_flow-go :
      (redirect_to : String) (w : World S X) {url : String} {w' : World S X}
      → login_start_flow d cfg redirect_to w ≡ (go (ok url), w')
      → Started w url w'
  unfolding login_start_flow
  login_start_flow-go redirect_to w {url = url'} {w' = w'} h = >>=-elim _ _ w h λ pkce w₁ first h₁.
      >>=-elim _ _ w₁ h₁ λ state w₂ second h₂. >>=-elim _ _ w₂ h₂ λ u w₃ third h₃.
        >>=-elim _ _ w₃ h₃ λ url w₄ fourth last.
          let a = on_env-eq (generate_pkce outside) w (checked-go _ _ w first) in
          let b = on_env-eq (generate_state outside) w₁ (checked-go _ _ w₁ second) in
          let kept = kept_for redirect_to pkce state in
          let set = stores.pkce_set state kept cfg.session_pkce_ttl_seconds in
          let c = on_store-eq set w₂ (checked-go _ _ w₂ third) in
          let ask = outside.authorization_url state pkce.challenge pkce.nonce in
          let e = on_env-eq ask w₃ (checked-go _ _ w₃ fourth) in
          let (same, same_world) = pure-go (ok url) w₄ last in
          let challenge = generate_pkce-challenge w.env pkce w₁.env a.0 in
          record {
            kept = kept;
            after_pkce = w₁.env;
            after_state = w₂.env;
            pkce = pkce;
            generated = a.0;
            state_generated = b.0;
            stored =
                ap set (sym (b.1 ∙ a.1))
                ∙ c.0
                ∙ ap (λ s. (ok tt, s)) (sym e.1 ∙ ap (λ (v : World S X). v.store) same_world);
            verifier_kept = (refl, refl);
            provider_told =
                ap (λ c. outside.authorization_url state c pkce.nonce w₂.env) (sym challenge)
                ∙ ap ask (sym c.1)
                ∙ e.0
                ∙ ap (λ (r : Result String). (r, w₄.env)) same
                ∙ ap (λ (v : World S X). (ok url', v.env)) same_world;
            permitted = validated_or_base-Permitted redirect_to;
          }

  login_start_flow-Stops :
      (redirect_to : String) → Stops Failed (login_start_flow d cfg redirect_to)
  unfolding login_start_flow
  login_start_flow-Stops redirect_to =
      bind-Stops Failed (checked-Stops Failed _ _ (λ _. tt)) λ pkce.
        bind-Stops Failed (checked-Stops Failed _ _ (λ _. tt)) λ state.
          bind-Stops Failed (checked-Stops Failed _ _ (λ _. tt))
            λ _. bind-Stops Failed (checked-Stops Failed _ _ (λ _. tt)) λ url. pure-Stops Failed _

  -- A login that starts has kept, under a fresh state, the fresh code verifier and nonce and a
  -- redirect that the configuration permits; the provider was asked for a login page with this
  -- state, this nonce and the challenge that belongs to this verifier, and the store was not touched otherwise.
  pub login_start-Started :
      (redirect_to : String) (w : World S X) (url : String) (w' : World S X)
      → login_start d cfg redirect_to w ≡ (ok url, w')
      → Started w url w'
  unfolding login_start
  login_start-Started redirect_to w url w' h =
      elim (run_cases (login_start_flow d cfg redirect_to) w h) [
        | inl early ↦ absurd ((login_start_flow-Stops redirect_to).holds w _ w' early)
        | inr late ↦ login_start_flow-go redirect_to w late
      ]
