-- ===== src/Proxy/Tests/Pipelines.antt =====
-- A pipeline with a limiter and an entry without an ID.
use authsentinel.Base.{◌≡◌, refl, List, [], ◌∷◌, none, Result, ok, err}
use authsentinel.Plugins.{Registry, new}
use authsentinel.Plugins.Builtin.{register_builtins}
use authsentinel.Proxy.Config.{PipelinePluginEntry}
use authsentinel.Proxy.Pipeline.{Decoders, build_pipeline_plugins}
use authsentinel.Proxy.Pipeline.Limiters.{EachFor, named_entries, build_pipeline_plugins-EachFor}
use authsentinel.Proxy.RateLimit.{configure}
use authsentinel.Proxy.Tests.Limits.{decoded, limits}

abbrev registry_of : Result Registry → Registry
registry_of (ok r) = r
registry_of (err _) = new

abbrev decoders : Decoders
decoders = record { limits = λ _. ok decoded; oidc = λ _. err "no issuer"; quote = λ s. s }

abbrev entries : List PipelinePluginEntry
entries =
    record { id = ""; type_ = "builtin"; raw = none }
    ∷ record { id = "pipeline:ratelimit"; type_ = "builtin"; raw = none }
    ∷ []

oidc_test :
    build_pipeline_plugins decoders
      (registry_of (register_builtins new))
      (record { id = "provider:oidc"; type_ = ""; raw = none } ∷ [])
    ≡ err "pipeline plugin provider:oidc configure: no issuer"
unfolding build_pipeline_plugins register_builtins
oidc_test = refl

build_pipeline_plugins-EachFor_example : EachFor decoders (named_entries entries) (limits ∷ [])
unfolding build_pipeline_plugins register_builtins configure
build_pipeline_plugins-EachFor_example =
    build_pipeline_plugins-EachFor decoders (registry_of (register_builtins new)) entries
      (limits ∷ []) refl
