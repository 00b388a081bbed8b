-- ===== src/Proxy/Tests/Configs.antt =====
-- The proxy's configuration at one that leaves most settings out.
use authsentinel.Base.{refl, true, none, some, []}
use authsentinel.Proxy.Config.{Config, startup_config}
use authsentinel.Proxy.Config.Ready.{Ready, startup_config-Ready}
use authsentinel.Proxy.Identity.{HeaderClaims}
use authsentinel.Text.{has_prefix}

abbrev no_claims : HeaderClaims
no_claims = record {
  user_id = "";
  email = "";
  name = "";
  preferred_username = "";
  roles = "";
  groups = "";
  tenant_id = "";
  admin_role = "";
}

abbrev pub loaded : Config
loaded = record {
  upstream_url = "http://u";
  proxy_path_prefix = "graphql";
  require_auth = true;
  agent_url = "http://a";
  cookie_name = "";
  http_port = "";
  policy_engine = "rego";
  policy_bundle_path = "";
  policy_fallback_allow = none;
  pipeline_plugins = [];
  plugins_manifest_dir = "";
  admin_secret = "";
  headers = no_claims;
}

abbrev started : Config
started = record loaded {
  proxy_path_prefix = "/graphql";
  cookie_name = "__Host-ess_session";
  http_port = "8081";
  policy_fallback_allow = some true;
  headers = record no_claims {
    user_id = "sub";
    email = "email";
    name = "name";
    preferred_username = "preferred_username";
    roles = "realm_access.roles";
    groups = "groups";
    admin_role = "admin";
  };
}

startup_config-Ready_example : Ready loaded started
unfolding startup_config has_prefix
startup_config-Ready_example = startup_config-Ready loaded started refl
