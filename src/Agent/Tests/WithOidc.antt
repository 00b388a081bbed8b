-- ===== src/Agent/Tests/WithOidc.antt =====
-- A login at a provider that the OIDC plugin has to discover first.
use authsentinel.Base.{
  ◌≡◌, refl, ℕ, suc, String, [], ◌∷◌, none, some, Result, ok, err, pos, Dict, insert,
}
use authsentinel.Agent.Deps.{Deps, Outside}
use authsentinel.Agent.Flow.{World, run}
use authsentinel.Agent.Login.{login_start}
use authsentinel.Agent.Login.Started.{Started}
use authsentinel.Agent.Pkce.{challenge_of, generate_pkce, generate_state}
use authsentinel.Agent.Tests.{Store, config, deps, letters, no_url, token_of, world}
use authsentinel.Oidc.{OidcDeps, Client, Discovery, auth_url, discovery, fetch_discovery, revoke}
use authsentinel.Oidc.Discovered.{DocumentOf, Asked, with_oidc, login_start-page}
use authsentinel.Oidc.Plugin.{PluginWorld, plugin_authorization_url, fields_func, configure}
use authsentinel.Text.{◌+s◌, trim_suffix, join, itoa}

abbrev values : Dict String → String
values [] = ""
values (entry ∷ rest) = entry.0 +s "=" +s entry.1 +s "&" +s values rest

abbrev document : Discovery
document = record {
  issuer = "https://idp";
  authorization_endpoint = "https://idp/auth";
  token_endpoint = "https://idp/token";
  end_session_endpoint = "";
  jwks_uri = "https://idp/jwks";
  revocation_endpoint = "https://idp/revoke";
}

-- The state counts the requests.
abbrev provider : OidcDeps ℕ
provider = record {
  http_get = λ _ x. (ok (record { status = pos 200; body = ok "document" }), suc x);
  post_form = λ _ _ x. (ok (record { status = pos 503; body = ok "busy" }), suc x);
  decode_discovery = λ _. ok document;
  decode_tokens = λ _. err "no tokens";
  encode = values;
}

abbrev client : Client
client = record {
  issuer = "https://idp";
  client_id = "app";
  client_secret = "";
  redirect_uri = "https://app/callback";
  scopes = "openid" ∷ "email" ∷ [];
  audience = "";
  discovery = none;
}

scopes_test : fields_func "openid, email" ≡ "openid" ∷ "email" ∷ []
unfolding fields_func
scopes_test = refl

configure_test :
    configure (record {
      issuer = "https://idp/";
      client_id = "app";
      client_secret = "";
      redirect_uri = "https://app/callback";
      scopes = "openid" ∷ "email" ∷ [];
      claims_source = "";
      audience = "";
    })
    ≡ ok client
unfolding configure trim_suffix
configure_test = refl

revoke_test :
    (revoke provider "rt" (record { store = client; env = 0 })).0 ≡ err "revoke: status 503: busy"
unfolding revoke run discovery fetch_discovery itoa
revoke_test = refl

abbrev Env : Type 0
Env = PluginWorld provider

abbrev outside : Outside Env
outside = record {
  jwt = record {
    get_jwks = λ _ x. (ok "keys", x);
    decode_jwks = λ _. ok [];
    raw_url_decode = λ _. ok [];
    jwt_parse = λ raw _ _ x. (ok (token_of raw), x);
  };
  authorization_url = λ _ _ _ x. (err "no provider", x);
  exchange_code = λ _ _ _ x. (err "no provider", x);
  provider_refresh = λ _ x. (err "no provider", x);
  end_session_url = λ _ _ x. (err "no provider", x);
  random = λ _ x. (ok (5 ∷ []), x);
  sha256 = λ _. 7 ∷ [];
  raw_url_encode = letters;
  now = λ x. (pos 1000, x);
  post_webhook = λ _ _ x. (tt, x);
}

abbrev agent : Deps Store Env
agent = record { stores = deps.stores; outside = outside; cookie = deps.cookie; url_parse = no_url }

abbrev before : World Store Env
before = record { store = world.store; env = record { store = some client; env = 0 } }

abbrev after : Result String × World Store Env
after = login_start (with_oidc provider agent config) config "/inbox" before

abbrev page : String
page =
    "https://idp/auth?response_type=code&client_id=app&redirect_uri=https://app/callback&scope=openid email"
    +s "&state=f&code_challenge=h&code_challenge_method=S256&nonce=f&"

login_start-page_example :
    (s : Started (with_oidc provider agent config) config before page after.1) × (c : Client)
    × (disc : Discovery) × (q : Dict String) × (s.after_state.store ≡ some c)
    × DocumentOf provider c s.after_state.env disc
    × (page ≡ disc.authorization_endpoint +s "?" +s provider.encode q)
    × Asked provider c s.kept.state
        (challenge_of (with_oidc provider agent config).outside s.kept.code_verifier)
        s.kept.nonce
        q
unfolding login_start run insert generate_pkce generate_state plugin_authorization_url auth_url
    discovery fetch_discovery join
login_start-page_example = login_start-page provider agent config "/inbox" before page after.1 refl
