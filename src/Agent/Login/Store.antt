-- ===== src/Agent/Login/Store.antt =====
-- Steps of a login that leave the store alone.
use authsentinel.Base.{◌≡◌, sym, ap, ◌∙◌, String, ℤ, arith}
use authsentinel.Agent.Config.{Config}
use authsentinel.Agent.Deps.{Deps, ProviderTokens}
use authsentinel.Agent.Flow.{World, go, run}
use authsentinel.Agent.Flow.Laws.{>>=-elim, checked-go, pure-go, on_env-eq}
use authsentinel.Agent.Login.{LoginEndRequest, audience, expiry, notify, authenticate, new_session}
use authsentinel.Agent.Pkce.{generate_session_id}
use authsentinel.Session.{Session, PkceState}
use authsentinel.Token.Claims.{Principal}
use authsentinel.Token.IdToken.{validate_id_token}

module _ {S X : Type 0} (d : Deps S X) (cfg : Config) where
  open d use {stores, outside}

  pub notify-store :
      (req : LoginEndRequest) (sess : Session) (p : Principal) (w : World S X) {u : Unit {0}}
      {w' : World S X}
      → notify d cfg req sess p w ≡ (u, w')
      → w'.store ≡ w.store
  unfolding notify
  notify-store req sess p w h = ground arith

  pub expiry-store :
      {R : Type 0} (tokens : ProviderTokens) (w : World S X) {at : ℤ} {w' : World S X}
      → expiry d cfg {R = R} tokens w ≡ (go at, w')
      → w'.store ≡ w.store
  unfolding expiry run
  expiry-store tokens w h = ground arith

  pub authenticate-store :
      (code : String) (p : PkceState) (w : World S X) {r : ProviderTokens × Principal}
      {w' : World S X}
      → authenticate d cfg code p w ≡ (go r, w')
      → w'.store ≡ w.store
  unfolding authenticate
  authenticate-store code p w h = >>=-elim _ _ w h λ t w₁ got next.
      >>=-elim _ _ w₁ next λ q w₂ valid last.
        let exchange = outside.exchange_code code p.code_verifier cfg.oidc_redirect_uri in
        let validate =
          validate_id_token outside.jwt t.id_token cfg.oidc_issuer (audience d cfg) p.nonce in
        sym (ap (λ (v : World S X). v.store) (pure-go _ w₂ last).1)
        ∙ (on_env-eq validate w₁ (checked-go _ _ w₁ valid)).1
        ∙ (on_env-eq exchange w (checked-go _ _ w got)).1

  pub new_session-store :
      (tokens : ProviderTokens) (p : Principal) (w : World S X) {sess : Session} {w' : World S X}
      → new_session d cfg tokens p w ≡ (go sess, w')
      → w'.store ≡ w.store
  unfolding new_session
  new_session-store tokens p w h = >>=-elim _ _ w h λ at w₁ first next.
      >>=-elim _ _ w₁ next λ id w₂ made last.
        sym (ap (λ (v : World S X). v.store) (pure-go _ w₂ last).1)
        ∙ (on_env-eq (generate_session_id outside) w₁ (checked-go _ _ w₁ made)).1
        ∙ expiry-store tokens w first
