-- ===== src/Proxy/Config/Ready.antt =====
-- What holds of the configuration that the proxy starts with.
use authsentinel.Base.{
  ◌≡◌, refl, ◌≢◌, ◌⊎◌, inl, inr, true, String, some, ok, arith, eq_iff, ne_of_==-false, subst,
}
use authsentinel.Proxy.Config.{
  Config, with_slash, validate, given_or, apply_defaults, startup_config,
}
use authsentinel.Text.{text_or, has_prefix}
use authsentinel.Text.Laws.{has_prefix-append}

pub record Ready (c out : Config) : Type 0 where
  pub upstream : (out.upstream_url ≢ "") × (out.upstream_url ≡ c.upstream_url)
  pub agent : (out.agent_url ≢ "") × (out.agent_url ≡ c.agent_url)
  pub auth : out.require_auth ≡ c.require_auth
  pub engine : (out.policy_engine ≡ "wasm") ⊎ (out.policy_engine ≡ "rego")
  pub fallback : out.policy_fallback_allow ≡ some (given_or true c.policy_fallback_allow)
  pub path_prefix : has_prefix out.proxy_path_prefix "/" ≡ true
  pub cookie : out.cookie_name ≢ ""
  pub port : out.http_port ≢ ""
  pub user_id : out.headers.user_id ≢ ""
  pub roles : out.headers.roles ≢ ""
  pub admin_role : out.headers.admin_role ≢ ""

text_or-given : (d s : String) → d ≢ "" → text_or d s ≢ ""
text_or-given d s given = ground (arith, given, eq_iff s "")

with_slash-has_prefix : (s : String) → has_prefix (with_slash s) "/" ≡ true
with_slash-has_prefix s = ground (arith, has_prefix-append "/" s)

validate-accepted :
    (c out : Config)
    → validate c ≡ ok out
    → ((record c { proxy_path_prefix = with_slash c.proxy_path_prefix }) ≡ out)
      × ((c.upstream_url ≢ "")
          × ((c.agent_url ≢ "")
              × ((c.policy_engine ≡ "")
                  ⊎ ((c.policy_engine ≡ "wasm") ⊎ (c.policy_engine ≡ "rego")))))
unfolding validate
validate-accepted c out h = ground (
  arith,
  eq_iff c.upstream_url "",
  eq_iff c.agent_url "",
  eq_iff c.policy_engine "",
  eq_iff c.policy_engine "wasm",
  eq_iff c.policy_engine "rego",
)

chosen :
    (kind : String)
    → (text_or "wasm" kind ≡ "") ⊎ ((text_or "wasm" kind ≡ "wasm") ⊎ (text_or "wasm" kind ≡ "rego"))
    → (text_or "wasm" kind ≡ "wasm") ⊎ (text_or "wasm" kind ≡ "rego")
chosen kind (inr known) = known
chosen kind (inl none_given) =
    absurd (text_or-given "wasm" kind (ne_of_==-false "wasm" "" refl) none_given)

-- The configuration that the proxy starts with has the upstream, the agent and the demand for a login
-- of the loaded one, names one of the two policy engines, falls back as the loaded one says and to
-- allow where it says nothing, has a path prefix that starts with a slash, and has a cookie, a port
-- and the claims of the user, of the roles and of the admin role.
pub startup_config-Ready : (c out : Config) → startup_config c ≡ ok out → Ready c out
unfolding startup_config apply_defaults
startup_config-Ready c out h =
    let (same, given) = validate-accepted (apply_defaults c) out h in
    subst (Ready c) same (record {
      upstream = (given.0, refl);
      agent = (given.1.0, refl);
      auth = refl;
      engine = chosen c.policy_engine given.1.1;
      fallback = refl;
      path_prefix = with_slash-has_prefix (text_or "/graphql" c.proxy_path_prefix);
      cookie = text_or-given "__Host-ess_session" c.cookie_name (ne_of_==-false _ _ refl);
      port = text_or-given "8081" c.http_port (ne_of_==-false _ _ refl);
      user_id = text_or-given "sub" c.headers.user_id (ne_of_==-false _ _ refl);
      roles = text_or-given "realm_access.roles" c.headers.roles (ne_of_==-false _ _ refl);
      admin_role = text_or-given "admin" c.headers.admin_role (ne_of_==-false _ _ refl);
    })
