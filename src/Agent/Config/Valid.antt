-- ===== src/Agent/Config/Valid.antt =====
-- What holds of a configuration that Validate accepts.
use authsentinel.Base.{
  ◌≡◌, refl, ◌≢◌, ◌⊎◌, String, List, [], ◌∷◌, ok, arith, eq_iff, ◌==◌, is_empty, subst,
  ne_of_==-false, false,
}
use authsentinel.Agent.Config.{Config, validate, or_default, accepted, parse_same_site}

pub record Valid (c : Config) : Type 0 where
  pub issuer : c.oidc_issuer ≢ ""
  pub redirect_uri : c.oidc_redirect_uri ≢ ""
  pub client_id : c.oidc_client_id ≢ ""
  pub redis : c.redis_url ≢ ""
  pub secret : c.cookie_signing_secret ≢ ""
  pub base_url : c.app_base_url ≢ ""
  pub source : (c.oidc_claims_source ≡ "id_token") ⊎ (c.oidc_claims_source ≡ "access_token")
  pub scopes : is_empty c.oidc_scopes ≡ false
  pub paths : is_empty c.allowed_redirect_paths ≡ false
  pub same_site : c.cookie_same_site ≡ parse_same_site c.cookie_same_site_str

or_default-given : (d : String) (ds ss : List String) → is_empty (or_default (d ∷ ds) ss) ≡ false
or_default-given d ds [] = refl
or_default-given d ds (s ∷ ss) = refl

accepted-source :
    (c : Config)
    → ((accepted c).oidc_claims_source ≡ "id_token")
      ⊎ ((accepted c).oidc_claims_source ≡ "access_token")
accepted-source c =
    ground
      (arith, eq_iff c.oidc_claims_source "id_token", eq_iff c.oidc_claims_source "access_token")

validate-accepted :
    (c out : Config)
    → validate c ≡ ok out
    → (accepted c ≡ out)
      × (((c.oidc_issuer == "") ≡ false)
          × (((c.oidc_redirect_uri == "") ≡ false)
              × (((c.oidc_client_id == "") ≡ false)
                  × (((c.redis_url == "") ≡ false)
                      × (((c.cookie_signing_secret == "") ≡ false)
                          × ((c.app_base_url == "") ≡ false))))))
unfolding validate
validate-accepted c out h = ground arith

-- A configuration that Validate accepts has an issuer, a redirect URI, a client, a Redis address, a
-- signing secret and a base URL, one of two claim sources, scopes and redirect paths, and the
-- SameSite mode that its text names.
pub validate-Valid : (c out : Config) → validate c ≡ ok out → Valid out
validate-Valid c out h =
    let (same, given) = validate-accepted c out h in
    subst Valid same (record {
      issuer = ne_of_==-false _ _ given.0;
      redirect_uri = ne_of_==-false _ _ given.1.0;
      client_id = ne_of_==-false _ _ given.1.1.0;
      redis = ne_of_==-false _ _ given.1.1.1.0;
      secret = ne_of_==-false _ _ given.1.1.1.1.0;
      base_url = ne_of_==-false _ _ given.1.1.1.1.1;
      source = accepted-source c;
      scopes = or_default-given _ _ c.oidc_scopes;
      paths = or_default-given _ _ c.allowed_redirect_paths;
      same_site = refl;
    })
