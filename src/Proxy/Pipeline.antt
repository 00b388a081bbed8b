-- ===== src/Proxy/Pipeline.antt =====
-- buildPipelinePlugins of cmd/proxy/main.go: the pipeline's plugins in the order of the configuration.
-- Of the plugins that are linked only the rate limiter is one for the pipeline; it is given by its
-- configuration. The registry is always there.
pub mod Limiters
use authsentinel.Base.{
  String, List, [], ◌∷◌, Option, none, some, Result, ok, err, if◌then◌else◌, ◌==◌,
}
use authsentinel.Plugins.{Registration, Registry, registration_for}
use authsentinel.Plugins.Builtin.{Made, rate_limiter, oidc_provider, factory}
use authsentinel.Proxy.Config.{PipelinePluginEntry}
use authsentinel.Proxy.RateLimit.{Config, Decoded, configure}
use authsentinel.Oidc.Plugin as OidcPlugin
use authsentinel.Oidc.{Client}
use authsentinel.Text.{◌+s◌}
use authsentinel.Value.{Claims}

-- json.Marshal and json.Unmarshal into the configurations of the plugins, with the plugins' words for
-- their errors, and fmt's %q
pub record Decoders : Type 0 where
  pub limits : Claims → Result Decoded
  pub oidc : Claims → Result OidcPlugin.Config
  pub quote : String → String

module _ (d : Decoders) (r : Registry) where
  abbrev plugin_error : String → String → String
  plugin_error id what = "pipeline plugin " +s d.quote id +s what

  abbrev pub configured : {A C : Type 0} → (A → Result C) → Result A → Result C
  configured f (err e) = err e
  configured f (ok a) = f a

  abbrev pub limiter_of : String → Result Config → Result Config
  limiter_of id (err e) = err (plugin_error id (" configure: " +s e))
  limiter_of id (ok cfg) = ok cfg

  abbrev pub no_pipeline_plugin : String → Result Client → Result Config
  no_pipeline_plugin id (err e) = err (plugin_error id (" configure: " +s e))
  no_pipeline_plugin id (ok _) = err (plugin_error id " is not a PipelinePlugin")

  abbrev pub made : String → Claims → Result Made → Result Config
  made id raw (err e) = err (plugin_error id (" factory: " +s e))
  made id raw (ok rate_limiter) = limiter_of id (configured configure (d.limits raw))
  made id raw (ok oidc_provider) =
      no_pipeline_plugin id (configured OidcPlugin.configure (d.oidc raw))

  abbrev pub plugin_at : String → Claims → Option Registration → Result Config
  plugin_at id raw none = err (plugin_error id " not registered")
  plugin_at id raw (some reg) = made id raw (factory id)

  abbrev pub before : Result Config → Result (List Config) → Result (List Config)
  before (err e) rest = err e
  before (ok cfg) (err e) = err e
  before (ok cfg) (ok rest) = ok (cfg ∷ rest)

  unfoldable pub build_pipeline_plugins : List PipelinePluginEntry → Result (List Config)
  unfolding registration_for factory configure
  build_pipeline_plugins [] = ok []
  build_pipeline_plugins (entry ∷ more) =
      let rest = build_pipeline_plugins more in
      if entry.id == ""
      then rest
      else before (plugin_at entry.id entry.raw (registration_for r entry.id)) rest
