-- ===== src/ValidateConfig/Tests.antt =====
-- The check of a YAML file for the proxy.
use authsentinel.Base.{◌≡◌, ◌≢◌, ◌⊎◌, refl, String, ok, err, if◌then◌else◌, ◌==◌}
use authsentinel.Proxy.Config as ProxyConfig
use authsentinel.Proxy.Tests.Configs.{loaded}
use authsentinel.Text.{contains, has_prefix, to_lower}
use authsentinel.ValidateConfig.{Files, binary_of, run, main}
use authsentinel.ValidateConfig.Checked.{AgentChecked, ProxyChecked, main-Checked}

abbrev files : Files String
files = record {
  read_file = λ path. if path == "/proxy.yml" then ok "yaml" else err "no such file";
  parse_yaml = λ text. ok text;
  to_json = λ m. ok m;
  agent_of_json = λ _. err "not an agent";
  proxy_of_json = λ _. ok loaded;
  load_agent = λ _. err "not JSON";
  load_proxy = λ _. err "not JSON";
  ext = λ _. ".YML";
  quote = λ s. s;
}

missing_test : main files "/agent.yml" "" "" "" ≡ 1
unfolding main binary_of run to_lower contains
missing_test = refl

main-Checked_example :
    (◌≢◌ {A = String} "/proxy.yml" "")
    × (((binary_of "" "/proxy.yml" ≡ "agent") × AgentChecked files "/proxy.yml")
        ⊎ ((binary_of "" "/proxy.yml" ≡ "proxy") × ProxyChecked files "/proxy.yml"))
unfolding main binary_of run to_lower contains has_prefix ProxyConfig.startup_config
main-Checked_example = main-Checked files "" "" "/proxy.yml" "" refl
