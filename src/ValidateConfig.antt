-- ===== src/ValidateConfig.antt =====
-- cmd/validateconfig/main.go: the check of a configuration file by the defaults and Validate of the agent
-- and the proxy.
pub mod Checked
mod Tests
use authsentinel.Base.{
  ℕ, Bool, ◌&&◌, ◌||◌, not, String, Result, ok, err, true, false, if◌then◌else◌, ◌==◌,
}
use authsentinel.Agent.Config as AgentConfig
use authsentinel.Proxy.Config as ProxyConfig
use authsentinel.Text.{◌+s◌, contains, to_lower}

-- os.ReadFile, yaml.Unmarshal, json.Marshal of what it gave, json.Unmarshal into the configurations,
-- the loader of go-config for a JSON file, filepath.Ext, and fmt's %q
pub record Files (Yaml : Type 0) : Type 0 where
  pub read_file : String → Result String
  pub parse_yaml : String → Result Yaml
  pub to_json : Yaml → Result String
  pub agent_of_json : String → Result AgentConfig.Config
  pub proxy_of_json : String → Result ProxyConfig.Config
  pub load_agent : String → Result AgentConfig.Config
  pub load_proxy : String → Result ProxyConfig.Config
  pub ext : String → String
  pub quote : String → String

abbrev pub first_set : String → String → String
first_set a b = if a == "" then b else a

-- The binary, from BINARY and the path of the configuration
unfoldable pub binary_of : String → String → String
unfolding contains
binary_of binary config_path =
    let guessed =
      if binary == "" && not (config_path == "")
      then if contains config_path "proxy" then "proxy" else "agent"
      else binary in
    if guessed == "" then "agent" else guessed

abbrev pub wrapped : {A : Type 0} → String → Result A → Result A
wrapped what (err e) = err (what +s ": " +s e)
wrapped what (ok a) = ok a

abbrev pub then_on : {A B : Type 0} → Result A → (A → Result B) → Result B
then_on (err e) next = err e
then_on (ok a) next = next a

abbrev pub valid : {A : Type 0} → Result A → Result (Unit {0})
valid (err e) = err e
valid (ok _) = ok tt

module _ {Yaml : Type 0} (f : Files Yaml) where
  -- The JSON of a YAML file
  abbrev pub json_of : String → Result String
  json_of path = then_on (wrapped "read file" (f.read_file path)) (λ text.
      then_on (wrapped "parse YAML" (f.parse_yaml text))
        (λ m. wrapped "convert to JSON" (f.to_json m)))

  abbrev pub agent_loaded : Bool → String → Result AgentConfig.Config
  agent_loaded true path =
      then_on (json_of path) (λ json. wrapped "decode config" (f.agent_of_json json))
  agent_loaded false path = wrapped "load config" (f.load_agent path)

  abbrev pub proxy_loaded : Bool → String → Result ProxyConfig.Config
  proxy_loaded true path =
      then_on (json_of path) (λ json. wrapped "decode config" (f.proxy_of_json json))
  proxy_loaded false path = wrapped "load config" (f.load_proxy path)

  -- A YAML file is read before the binary is looked at.
  abbrev pub readable : Bool → String → Result (Unit {0})
  readable true path = valid (json_of path)
  readable false path = ok tt

  unfoldable pub run : String → String → Result (Unit {0})
  unfolding to_lower
  run config_path binary =
      let ext = to_lower (f.ext config_path) in
      let is_yaml = ext == ".yaml" || ext == ".yml" in
      if binary == "agent"
      then then_on (agent_loaded is_yaml config_path)
          (λ cfg. valid (AgentConfig.validate (AgentConfig.apply_defaults cfg)))
      else if binary == "proxy"
      then then_on (proxy_loaded is_yaml config_path)
          (λ cfg. valid (ProxyConfig.startup_config cfg))
      else then_on (readable is_yaml config_path)
          (λ _. err ("unknown BINARY=" +s f.quote binary +s " (use agent or proxy)"))

  abbrev pub exit_code : Result (Unit {0}) → ℕ
  exit_code (err _) = 1
  exit_code (ok _) = 0

  -- main, for CONFIG_PATH, AGENT_CONFIG, PROXY_CONFIG and BINARY: the exit code
  unfoldable pub main : String → String → String → String → ℕ
  unfolding binary_of run
  main config agent proxy binary =
      let config_path = first_set config (first_set agent proxy) in
      if config_path == "" then 2 else exit_code (run config_path (binary_of binary config_path))
