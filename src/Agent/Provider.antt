-- ===== src/Agent/Provider.antt =====
-- buildProviderPlugin of cmd/agent/main.go: the OIDC plugin, configured from the agent's configuration.
-- The configuration passes through JSON unchanged, as it consists of texts and a list of texts.
pub mod Chosen
use authsentinel.Base.{String, Option, none, some, Result, ok, err, if◌then◌else◌, ◌==◌, not}
use authsentinel.Agent.Config as AgentConfig
use authsentinel.Oidc.{Client}
use authsentinel.Oidc.Plugin as OidcPlugin
use authsentinel.Plugins.{Registration, Registry, new, registration_for}
use authsentinel.Plugins.Builtin.{register_builtins, Made, rate_limiter, oidc_provider, factory}
use authsentinel.Text.{◌+s◌, trim_space, contains}

unfoldable pub provider_id : String → String
unfolding trim_space contains
provider_id configured =
    let id = trim_space configured in
    if id == "" then "provider:oidc" else if not (contains id ":") then "provider:" +s id else id

abbrev pub provider_config : AgentConfig.Config → OidcPlugin.Config
provider_config cfg = record {
  issuer = cfg.oidc_issuer;
  client_id = cfg.oidc_client_id;
  client_secret = cfg.oidc_client_secret;
  redirect_uri = cfg.oidc_redirect_uri;
  scopes = cfg.oidc_scopes;
  claims_source = cfg.oidc_claims_source;
  audience = cfg.oidc_audience;
}

-- `quote` is fmt's %q.
module _ (quote : String → String) (cfg : AgentConfig.Config) where
  abbrev pub made_provider : String → Result Made → Result Client
  made_provider id (err e) = err e
  made_provider id (ok rate_limiter) =
      err ("provider plugin " +s quote id +s " does not implement ProviderPlugin")
  made_provider id (ok oidc_provider) = OidcPlugin.configure (provider_config cfg)

  abbrev pub registered_provider : String → Option Registration → Result Client
  registered_provider id none = err ("provider plugin " +s quote id +s " not registered")
  registered_provider id (some reg) = made_provider id (factory id)

  abbrev pub provider_in : String → Result Registry → Result Client
  provider_in id (err e) = err e
  provider_in id (ok reg) = registered_provider id (registration_for reg id)

  unfoldable pub build_provider_plugin : Result Client
  unfolding provider_id register_builtins registration_for factory
  build_provider_plugin = provider_in (provider_id cfg.provider_plugin_id) (register_builtins new)
