-- ===== src/Plugins/Tests/Found.antt =====
-- Discovery beside a plugin that is built in, and startup orders.
use authsentinel.Base.{
  ◌≡◌, refl, true, false, String, List, [], ◌∷◌, Option, none, some, Result, ok, arith, add64,
  lookup, insert,
}
use authsentinel.Plugins.{Descriptor, Registry, new, add_to, provide, append_at, slice_at}
use authsentinel.Plugins.Discovery.{Files, Manifest, visited, walk_error, discover_from_dir}
use authsentinel.Plugins.Discovery.Origin.{Grown, discover_from_dir-Grown}
use authsentinel.Plugins.Startup.{build_dependency_graph, add_dependents}
use authsentinel.Plugins.Startup.EdgeCounts.{Distinct, needed}
use authsentinel.Plugins.Startup.Providers.{BehindProviders, build_dependency_graph-BehindProviders}
use authsentinel.Plugins.Tests.{limiter, two_plugins, started}

abbrev tenant_manifest : Manifest
tenant_manifest = record {
  id = "pipeline:tenant";
  kind = "pipeline";
  name = "Tenant";
  description = "";
  version = "v1";
  capabilities = "tenant" ∷ [];
  depends_on = [];
  config_schema_ref = "";
  enabled = some false;
  metadata = none;
  signature = none;
}

abbrev files : Files
files = record {
  walk_dir = λ _.
      visited "plugins" "plugins" true
      ∷ visited "plugins/a.txt" "a.txt" false
      ∷ visited "plugins/tenant.json" "tenant.json" false
      ∷ walk_error "plugins/x" true
      ∷ [];
  read_file = λ _. ok "tenant";
  unmarshal = λ _. ok tenant_manifest;
  quote = λ s. s;
}

abbrev built_in : Registry
built_in = add_to new limiter

-- The plugin is found switched off, and the path that is gone afterwards is no error.
discovery_test : (discover_from_dir files none "plugins" built_in).0 ≡ ok tt
unfolding discover_from_dir
discovery_test = refl

discover_from_dir-Grown_example :
    Grown files none built_in (discover_from_dir files none "plugins" built_in).1
discover_from_dir-Grown_example = discover_from_dir-Grown files none "plugins" built_in

build_dependency_graph-BehindProviders_example :
    Distinct started.sorted_startup × BehindProviders two_plugins [] started.sorted_startup
unfolding build_dependency_graph insert provide append_at slice_at lookup add64 add_dependents
    needed
build_dependency_graph-BehindProviders_example =
    build_dependency_graph-BehindProviders two_plugins started refl (λ j. ground arith) refl

abbrev plugin : String → List String → List String → Descriptor
plugin id provides needs = record limiter { id = id; capabilities = provides; depends_on = needs }

abbrev four_plugins : Registry
four_plugins =
    add_to
      (add_to (add_to (add_to new (plugin "d" ("z" ∷ []) [])) (plugin "c" [] ("x" ∷ "y" ∷ [])))
        (plugin "b" ("y" ∷ []) ("z" ∷ [])))
      (plugin "a" ("x" ∷ []) [])

abbrev order_of : Option (Result (Unit {0}) × Registry) → List String
order_of none = []
order_of (some (_, r)) = r.sorted_startup

abbrev again : Option (Result (Unit {0}) × Registry) → List String
again none = []
again (some (_, r)) = order_of (build_dependency_graph r)

order_test : order_of (build_dependency_graph four_plugins) ≡ "a" ∷ "d" ∷ "b" ∷ "c" ∷ []
unfolding build_dependency_graph insert provide append_at slice_at lookup add64 add_dependents
order_test = refl

-- A second call finds the edges of the first one still there, and puts "c" before its provider "b".
second_order_test : again (build_dependency_graph four_plugins) ≡ "a" ∷ "d" ∷ "c" ∷ "b" ∷ []
unfolding build_dependency_graph insert provide append_at slice_at lookup add64 add_dependents
second_order_test = refl
