-- ===== src/Oidc/Discovered.antt =====
-- What a login at an OIDC provider is made of.
use authsentinel.Base.{
  Result, err, Bool-cases, refl, sym, subst, Dict, lookup, ◌⊎◌, pos, eqb_ℤ, ℤ, negsuc, true, ◌==◌,
  ◌≡◌, String, Option, none, some, ok, inl, inr, Option-cases, Result-cases, arith,
}
use authsentinel.Agent.Config.{Config}
use authsentinel.Agent.Deps.{Deps}
use authsentinel.Agent.Flow.{World, run}
use authsentinel.Agent.Login.{login_start}
use authsentinel.Agent.Login.Started.{Started, login_start-Started}
use authsentinel.Agent.Pkce.{challenge_of}
use authsentinel.Oidc.{
  OidcDeps, Client, Answer, then_complete, decoded, document_of, fetch_discovery, Discovery,
  discovery, auth_params, auth_url, auth_url_flow,
}
use authsentinel.Oidc.Plugin.{
  PluginWorld, plugin_authorization_url, plugin_exchange_code, plugin_refresh,
  plugin_end_session_url, with_client,
}
use authsentinel.Text.{◌+s◌, join}

ok_status : (z : ℤ) → eqb_ℤ z (pos 200) ≡ true → z ≡ pos 200
ok_status (pos n) h = ground arith
ok_status (negsuc n) h = ground arith

module _ {X : Type 0} (d : OidcDeps X) where
  -- What the first discovery answered, its error too, every later one answers without a request.
  discovery-again :
      (w : World Client X) → discovery d (discovery d w).1 ≡ ((discovery d w).0, (discovery d w).1)
  unfolding discovery
  discovery-again w = elim (Option-cases w.store.discovery) [
    | inl unasked ↦ ground (arith, unasked)
    | inr (r, asked) ↦ ground (arith, asked)
  ]

  -- The document was kept by the client, or it is the answer of the issuer's well-known address.
  abbrev pub DocumentOf : Client → X → Discovery → Type 0
  DocumentOf c x disc =
      (c.discovery ≡ some (ok disc))
      ⊎ ((resp : Answer) × (text : String) × ((d.http_get
              (c.issuer +s "/.well-known/openid-configuration") x).0
            ≡ ok resp)
          × (resp.status ≡ pos 200)
          × (resp.body ≡ ok text)
          × (d.decode_discovery text ≡ ok disc))

  -- The query of an authorization request with PKCE
  pub record Asked (c : Client) (state challenge nonce : String) (q : Dict String) : Type 0 where
    pub response_type : lookup "response_type" q ≡ some "code"
    pub client_id : lookup "client_id" q ≡ some c.client_id
    pub redirect_uri : lookup "redirect_uri" q ≡ some c.redirect_uri
    pub scope : lookup "scope" q ≡ some (join c.scopes " ")
    pub state_is : lookup "state" q ≡ some state
    pub challenge_is : lookup "code_challenge" q ≡ some challenge
    pub method_is : lookup "code_challenge_method" q ≡ some "S256"
    pub nonce_is : lookup "nonce" q ≡ some nonce

  auth_params-Asked :
      (c : Client) (state challenge nonce : String)
      → Asked c state challenge nonce (auth_params d c state challenge nonce)
  unfolding lookup
  auth_params-Asked c state challenge nonce = elim (Bool-cases (c.audience == "")) [
    | inl none_set ↦ rw none_set (record {
      response_type = refl;
      client_id = refl;
      redirect_uri = refl;
      scope = refl;
      state_is = refl;
      challenge_is = refl;
      method_is = refl;
      nonce_is = refl;
    })
    | inr is_set ↦ rw is_set (record {
      response_type = refl;
      client_id = refl;
      redirect_uri = refl;
      scope = refl;
      state_is = refl;
      challenge_is = refl;
      method_is = refl;
      nonce_is = refl;
    })
  ]

  then_complete-ok :
      (r : Result Discovery) (disc : Discovery) → then_complete d r ≡ ok disc → r ≡ ok disc
  then_complete-ok (err e) disc h = ground arith
  then_complete-ok (ok found) disc h = ground arith

  decoded-ok :
      (body : Result String) (disc : Discovery)
      → decoded d body ≡ ok disc
      → (text : String) × (body ≡ ok text) × (d.decode_discovery text ≡ ok disc)
  decoded-ok (err e) disc h = ground arith
  decoded-ok (ok text) disc h = (text, refl, then_complete-ok (d.decode_discovery text) disc h)

  document_of-ok :
      (url : String) (r : Result Answer) (disc : Discovery)
      → document_of d url r ≡ ok disc
      → (resp : Answer) × (text : String) × (r ≡ ok resp)
        × (resp.status ≡ pos 200)
        × (resp.body ≡ ok text)
        × (d.decode_discovery text ≡ ok disc)
  document_of-ok url (err e) disc h = ground arith
  document_of-ok url (ok resp) disc h = elim (Bool-cases (eqb_ℤ resp.status (pos 200))) [
    | inl good ↦
        let (text, body, read) = decoded-ok resp.body disc (ground (arith, good, h)) in
        (resp, text, refl, ok_status resp.status good, body, read)
    | inr bad ↦ absurd (ground (arith, bad, h))
  ]

  discovery-DocumentOf :
      (c : Client) (x : X) (disc : Discovery)
      → (discovery d (record { store = c; env = x })).0 ≡ ok disc
      → DocumentOf c x disc
  unfolding discovery fetch_discovery
  discovery-DocumentOf c x disc h = elim (Option-cases c.discovery) [
    | inl unasked ↦ inr (
        document_of-ok (c.issuer +s "/.well-known/openid-configuration")
          (d.http_get (c.issuer +s "/.well-known/openid-configuration") x).0 disc
          (ground (arith, unasked, h)))
    | inr (r, asked) ↦ inl (ground (arith, asked, h))
  ]

  discovery-client :
      (c : Client) (x : X)
      → (discovery d (record { store = c; env = x })).1.store
        ≡ record c { discovery = some (discovery d (record { store = c; env = x })).0 }
  unfolding discovery
  discovery-client c x = elim (Option-cases c.discovery) [
    | inl unasked ↦ ground (arith, unasked)
    | inr (r, asked) ↦ ground (arith, asked)
  ]

  plugin-page :
      (state challenge nonce url : String) (o : Option Client) (x : X) (w' : PluginWorld d)
      → with_client d (auth_url d state challenge nonce) o x ≡ (ok url, w')
      → (c : Client) × (disc : Discovery) × (q : Dict String) × (o ≡ some c)
        × DocumentOf c x disc
        × (url ≡ disc.authorization_endpoint +s "?" +s d.encode q)
        × Asked c state challenge nonce q
  unfolding auth_url auth_url_flow run
  plugin-page state challenge nonce url none x w' h = absurd (ground (arith, h))
  plugin-page state challenge nonce url (some c) x w' h =
      let w : World Client X = record { store = c; env = x } in
      elim (Result-cases (discovery d w).0) [
        | inr (e, failed) ↦ absurd (ground (arith, failed, h))
        | inl (disc, got) ↦ (
          c,
          disc,
          auth_params d (discovery d w).1.store state challenge nonce,
          refl,
          discovery-DocumentOf c x disc got,
          ground (arith, got, h),
          subst (λ k. Asked c state challenge nonce (auth_params d k state challenge nonce))
              (sym (discovery-client c x)) (auth_params-Asked c state challenge nonce),
        )
      ]

  module _ {S : Type 0} (deps : Deps S (PluginWorld d)) (cfg : Config) where
    -- The agent with the OIDC plugin as its provider
    abbrev pub with_oidc : Deps S (PluginWorld d)
    with_oidc = record deps {
      outside = record deps.outside {
        authorization_url = plugin_authorization_url d;
        exchange_code = plugin_exchange_code d;
        provider_refresh = plugin_refresh d;
        end_session_url = plugin_end_session_url d;
      };
    }

    -- With the OIDC plugin, a login that starts sends the browser to the authorization endpoint of a
    -- discovery document that the plugin's client had kept or has just read, with status 200, from its
    -- issuer's well-known address. The query asks for a code with the client's id, redirect URI and
    -- scopes, the state and the nonce that were kept, and the S256 challenge that belongs to the kept
    -- code verifier.
    pub login_start-page :
        (redirect_to : String) (w : World S (PluginWorld d)) (url : String)
        (w' : World S (PluginWorld d))
        → login_start with_oidc cfg redirect_to w ≡ (ok url, w')
        → (s : Started with_oidc cfg w url w') × (c : Client) × (disc : Discovery) × (q : Dict
            String)
          × (s.after_state.store ≡ some c)
          × DocumentOf c s.after_state.env disc
          × (url ≡ disc.authorization_endpoint +s "?" +s d.encode q)
          × Asked c s.kept.state
              (challenge_of with_oidc.outside s.kept.code_verifier)
              s.kept.nonce
              q
    unfolding plugin_authorization_url
    login_start-page redirect_to w url w' h =
        let s = login_start-Started with_oidc cfg redirect_to w url w' h in
        let (c, disc, q, there, origin, same, asks) =
          plugin-page s.kept.state (challenge_of with_oidc.outside s.kept.code_verifier)
            s.kept.nonce url s.after_state.store s.after_state.env w'.env s.provider_told in
        (s, c, disc, q, there, origin, same, asks)
