-- ===== src/Proxy/Config.antt =====
-- internal/proxy/config/config.go, and what cmd/proxy/main.go makes of a loaded configuration
pub mod Ready
use authsentinel.Base.{
  Bool, true, ◌&&◌, not, String, List, Option, none, some, Result, ok, err, if◌then◌else◌, ◌==◌,
}
use authsentinel.Proxy.Identity.{HeaderClaims}
use authsentinel.Text.{◌+s◌, text_or, has_prefix}
use authsentinel.Value.{Claims}

pub record PipelinePluginEntry : Type 0 where
  pub id : String
  pub type_ : String
  pub raw : Claims

pub record Config : Type 0 where
  pub upstream_url : String
  pub proxy_path_prefix : String
  pub require_auth : Bool
  pub agent_url : String
  pub cookie_name : String
  pub http_port : String
  pub policy_engine : String
  pub policy_bundle_path : String
  pub policy_fallback_allow : Option Bool
  pub pipeline_plugins : List PipelinePluginEntry
  pub plugins_manifest_dir : String
  pub admin_secret : String
  pub headers : HeaderClaims

abbrev err_missing : String → Result Config
err_missing name = err ("config: missing " +s name)

abbrev pub with_slash : String → String
with_slash prefix = if not (has_prefix prefix "/") then "/" +s prefix else prefix

-- Validate: the configuration that it leaves, or its error.
unfoldable pub validate : Config → Result Config
unfolding has_prefix
validate c =
    if c.upstream_url == ""
    then err_missing "UPSTREAM_URL"
    else if c.agent_url == ""
    then err_missing "AGENT_URL"
    else if not (c.policy_engine == "")
        && (not (c.policy_engine == "wasm") && not (c.policy_engine == "rego"))
    then err_missing "POLICY_ENGINE (must be \"wasm\" or \"rego\")"
    else ok (record c { proxy_path_prefix = with_slash c.proxy_path_prefix })

abbrev pub given_or : Bool → Option Bool → Bool
given_or d none = d
given_or d (some b) = b

abbrev pub claim_defaults : HeaderClaims → HeaderClaims
claim_defaults h = record h {
  user_id = text_or "sub" h.user_id;
  email = text_or "email" h.email;
  name = text_or "name" h.name;
  preferred_username = text_or "preferred_username" h.preferred_username;
  roles = text_or "realm_access.roles" h.roles;
  groups = text_or "groups" h.groups;
  admin_role = text_or "admin" h.admin_role;
}

unfoldable pub apply_defaults : Config → Config
apply_defaults c = record c {
  proxy_path_prefix = text_or "/graphql" c.proxy_path_prefix;
  cookie_name = text_or "__Host-ess_session" c.cookie_name;
  http_port = text_or "8081" c.http_port;
  policy_engine = text_or "wasm" c.policy_engine;
  policy_fallback_allow = some (given_or true c.policy_fallback_allow);
  headers = claim_defaults c.headers;
}

-- main: the defaults that loadConfig applies, then Validate
unfoldable pub startup_config : Config → Result Config
unfolding apply_defaults validate
startup_config c = validate (apply_defaults c)
