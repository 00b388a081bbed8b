-- ===== src/Plugins/Tests.antt =====
-- A registry with one plugin, which is disabled afterwards.
mod Found
use authsentinel.Base.{
  ◌≡◌, refl, ◌≢◌, inl, inr, false, [], ◌∷◌, arith, All, Exists, some, Result, ok, err, add64,
  lookup, insert,
}
use authsentinel.Plugins.{
  Descriptor, Registry, new, add_to, provide, append_at, slice_at, register, disable,
  resolve_by_capability,
}
use authsentinel.Plugins.Disabled.{Keyed, registered, Step-Keyed, disable-resolve_by_capability}
use authsentinel.Plugins.Startup.{build_dependency_graph, add_dependents}
use authsentinel.Plugins.Startup.Terminates.{Built, build_dependency_graph-ends}
use authsentinel.Plugins.Registered.{register-resolve_by_capability}

abbrev pub limiter : Descriptor
limiter = record {
  id = "pipeline:ratelimit";
  kind = "pipeline";
  name = "RateLimit";
  description = "";
  version = "v1";
  capabilities = "pipeline" ∷ "pipeline:ratelimit" ∷ [];
  depends_on = [];
  config_schema_ref = "";
}

new-Keyed : Keyed new.by_id
unfolding lookup
new-Keyed k reg h = absurd (ground arith)

abbrev switched_off : Registry
switched_off = record (add_to new limiter) {
  by_id =
      ("pipeline:ratelimit", record { descriptor = limiter; enabled = false; state = "registered" })
      ∷ [];
}

abbrev pub tenant_plugin : Descriptor
tenant_plugin = record limiter {
  id = "pipeline:tenant";
  capabilities = "tenant" ∷ [];
  depends_on = "pipeline:ratelimit" ∷ [];
}

abbrev pub two_plugins : Registry
two_plugins = add_to (add_to new tenant_plugin) limiter

abbrev pub started : Registry
started = record two_plugins {
  dependents = ("pipeline:ratelimit", "pipeline:tenant" ∷ []) ∷ [];
  sorted_startup = "pipeline:ratelimit" ∷ "pipeline:tenant" ∷ [];
}

-- The limiter starts before the plugin that depends on it.
startup_test : build_dependency_graph two_plugins ≡ some (ok tt, started)
unfolding build_dependency_graph insert provide append_at slice_at lookup add64 add_dependents
startup_test = refl

cycle_test :
    build_dependency_graph (add_to new (record tenant_plugin { depends_on = "tenant" ∷ [] }))
    ≡ some (
      err "pluginregistry: dependency cycle",
      record (add_to new (record tenant_plugin { depends_on = "tenant" ∷ [] })) {
        dependents = ("pipeline:tenant", "pipeline:tenant" ∷ []) ∷ [];
      },
    )
unfolding build_dependency_graph insert provide append_at slice_at lookup add64 add_dependents
cycle_test = refl

build_dependency_graph-ends_example :
    (out : Result (Unit {0}) × Registry) × (build_dependency_graph two_plugins ≡ some out)
    × Built two_plugins out
build_dependency_graph-ends_example = build_dependency_graph-ends two_plugins
