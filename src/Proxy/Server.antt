-- ===== src/Proxy/Server.antt =====
-- The pages of internal/proxy/httpserver/server.go: health and the admin view. The registry and the
-- policy engine are always there, and a registration never has an error, as nothing sets one.
-- AllPluginIDs has the IDs in no particular order; here it is that of the registry.
pub mod Listed
use authsentinel.Base.{
  Bool, String, List, [], ◌∷◌, Option, none, some, not, Dict, is_empty, lookup, map, if◌then◌else◌,
  ◌==◌,
}
use authsentinel.Agent.Server.Http.{Act, set, write_header, write, text}
use authsentinel.Plugins.{Registration, Registry, registration_for}
use authsentinel.Plugins.Startup.{startup_order}
use authsentinel.Policy.Engines.{PolicyEngine, wasm, rego}
use authsentinel.Policy.Rego.{rego_loaded}
use authsentinel.Policy.Wasm.{wasm_loaded}
use authsentinel.Proxy.Config.{Config}
use authsentinel.Value.{Value, str, bool}

abbrev plain_ok : List Act
plain_ok = write_header 200 ∷ set "Content-Type" "text/plain" ∷ write (text "ok") ∷ []

abbrev pub handle_healthz : List Act
handle_healthz = plain_ok

abbrev pub handle_livez : List Act
handle_livez = plain_ok

abbrev pub handle_readyz : List Act
handle_readyz = plain_ok

abbrev pub all_plugin_ids : Registry → List String
all_plugin_ids r = map (λ entry. entry.0) r.by_id

abbrev pub listed_ids : Registry → List String
listed_ids r = if is_empty (startup_order r) then all_plugin_ids r else startup_order r

abbrev pub entry_before :
    (String → Registration → Dict Value)
    → String
    → Option Registration
    → List (Dict Value)
    → List (Dict Value)
entry_before show id none later = later
entry_before show id (some reg) later = show id reg ∷ later

-- One entry for each of the IDs that is registered
unfoldable pub entries_of :
    (String → Registration → Dict Value) → Registry → List String → List (Dict Value)
unfolding registration_for lookup
entries_of show r [] = []
entries_of show r (id ∷ ids) = entry_before show id (registration_for r id) (entries_of show r ids)

abbrev plugin_entry : String → Registration → Dict Value
plugin_entry id reg =
    ("id", str reg.descriptor.id)
    ∷ ("kind", str reg.descriptor.kind)
    ∷ ("name", str reg.descriptor.name)
    ∷ ("enabled", bool reg.enabled)
    ∷ ("state", str reg.state)
    ∷ []

abbrev health_entry : String → Registration → Dict Value
health_entry id reg = ("plugin_id", str id) ∷ ("state", str reg.state) ∷ []

abbrev pub plugins_list : Registry → List (Dict Value)
plugins_list r = entries_of plugin_entry r (listed_ids r)

abbrev pub plugin_health_list : Registry → List (Dict Value)
plugin_health_list r = entries_of health_entry r (listed_ids r)

abbrev pub proxy_config_summary : Config → Dict Value
proxy_config_summary cfg =
    ("upstream_url", str cfg.upstream_url)
    ∷ ("proxy_path_prefix", str cfg.proxy_path_prefix)
    ∷ ("require_auth", bool cfg.require_auth)
    ∷ ("agent_url", str cfg.agent_url)
    ∷ ("cookie_name", str cfg.cookie_name)
    ∷ ("http_port", str cfg.http_port)
    ∷ []

-- Loaded and BundlePath of the two engines
abbrev pub policy_bundle_status : {E : Type 0} → PolicyEngine E → Dict Value
policy_bundle_status (wasm w) =
    ("loaded", bool (wasm_loaded w)) ∷ ("bundle_path", str w.bundle_path) ∷ []
policy_bundle_status (rego e) =
    ("loaded", bool (rego_loaded e)) ∷ ("bundle_path", str e.bundle_path) ∷ []

pub record AdminView : Type 0 where
  pub config_summary : Dict Value
  pub plugins : List (Dict Value)
  pub plugin_health : List (Dict Value)
  pub policy_bundle : Dict Value

-- The view as JSON, or a 403 without a body for another X-Admin-Secret
unfoldable pub handle_admin :
    {E : Type 0} → Config → Registry → PolicyEngine E → String → Option AdminView
unfolding entries_of
handle_admin cfg r engine secret =
    if not (secret == cfg.admin_secret)
    then none
    else some (record {
      config_summary = proxy_config_summary cfg;
      plugins = plugins_list r;
      plugin_health = plugin_health_list r;
      policy_bundle = policy_bundle_status engine;
    })
