-- ===== src/Plugins/Builtin.antt =====
-- pkg/plugins/builtin/registrar.go with the descriptors of the two plugins that it registers, and what
-- the factories of all registrations make.
use authsentinel.Base.{String, [], ◌∷◌, Result, ok, err, if◌then◌else◌, ◌==◌}
use authsentinel.Plugins.{Descriptor, Registry, register}
use authsentinel.Text.{◌+s◌}

abbrev pub limiter_descriptor : Descriptor
limiter_descriptor = record {
  id = "pipeline:ratelimit";
  kind = "pipeline";
  name = "RateLimit";
  description = "Rate limiting pipeline plugin";
  version = "v1";
  capabilities = "pipeline:ratelimit" ∷ [];
  depends_on = [];
  config_schema_ref = "plugins/pipeline/ratelimit";
}

abbrev pub oidc_descriptor : Descriptor
oidc_descriptor = record {
  id = "provider:oidc";
  kind = "provider";
  name = "OIDC Provider";
  description = "OIDC provider plugin (authorization code + PKCE)";
  version = "v1";
  capabilities = "provider:oidc" ∷ [];
  depends_on = [];
  config_schema_ref = "plugins/provider/oidc";
}

abbrev then_oidc : Result Registry → Result Registry
then_oidc (err e) = err e
then_oidc (ok r) = register r oidc_descriptor

unfoldable pub register_builtins : Registry → Result Registry
unfolding register
register_builtins r = then_oidc (register r limiter_descriptor)

-- A plugin that a factory has made, not yet configured
pub data Made : Type 0 where
  rate_limiter oidc_provider : Made

-- The factory registered under an ID: that of discovery makes no plugin.
unfoldable pub factory : String → Result Made
factory id =
    if id == "pipeline:ratelimit"
    then ok rate_limiter
    else if id == "provider:oidc"
    then ok oidc_provider
    else err ("plugindiscovery: factory not provided for plugin " +s id)
