-- ===== src/Policy/Engines.antt =====
-- The engine that cmd/proxy/main.go chooses by the configuration.
use authsentinel.Base.{
  ℕ, Bool, false, String, [], Option, none, some, Result, ok, err, ℤ, if◌then◌else◌, ◌==◌,
}
use authsentinel.Policy.Bundle.{BundleLoader, load_bundle}
use authsentinel.Policy.Rego.{RegoEngine, Query, new_rego_engine, rego_load, rego_evaluate}
use authsentinel.Policy.Wasm.{WasmRuntime, Wazero, new_wasm_runtime, wasm_evaluate}
use authsentinel.Proxy.Types.{Decision, Input}

pub data PolicyEngine (E : Type 0) : Type 0 where
  wasm : WasmRuntime E → PolicyEngine E
  rego : RegoEngine E → PolicyEngine E

-- strconv.ParseInt, and json.Marshal, json.Unmarshal and the length of texts at the WASM boundary
pub record Codecs : Type 0 where
  pub parse_int : String → Result ℤ
  pub marshal : Input → Result String
  pub unmarshal : String → Result Decision
  pub bytes : String → ℕ

module _ {E : Type 0} (codecs : Codecs) where
  abbrev pub decision : PolicyEngine E → Input → E → Decision × E
  decision (wasm w) input e = wasm_evaluate codecs.marshal codecs.unmarshal codecs.bytes w input e
  decision (rego r) input e = rego_evaluate codecs.parse_int r input e

  abbrev no_error : Decision × E → Result (Option Decision) × E
  no_error (d, e) = (ok (some d), e)

  -- Engine.Evaluate: neither engine returns an error.
  abbrev pub evaluate : PolicyEngine E → Input → E → Result (Option Decision) × E
  evaluate engine input e = no_error (decision engine input e)

-- buildPolicyEngine of cmd/proxy/main.go, from policy_fallback_allow, policy_engine and
-- policy_bundle_path of the configuration
module _ {C E : Type 0} (wz : Wazero C E) (prepare : String → E → Result (Query E) × E) where
  abbrev fallback_allowed : Option Bool → Bool
  fallback_allowed none = false
  fallback_allowed (some b) = b

  abbrev built_wasm : Result (WasmRuntime E) × BundleLoader C × E → Result (PolicyEngine E) × E
  built_wasm (err m, _, e) = (err m, e)
  built_wasm (ok w, _, e) = (ok (wasm w), e)

  abbrev built_rego : Result (Unit {0}) × RegoEngine E × E → Result (PolicyEngine E) × E
  built_rego (err m, _, e) = (err m, e)
  built_rego (ok _, engine, e) = (ok (rego engine), e)

  unfoldable pub build_policy_engine :
      Option Bool → String → String → E → Result (PolicyEngine E) × E
  build_policy_engine fallback kind path e =
      let allow = fallback_allowed fallback in
      if kind == "wasm"
      then if path == ""
        then (ok (wasm (new_wasm_runtime allow)), e)
        else built_wasm (load_bundle wz (record { cache = []; fallback_allow = allow }) path e)
      else if kind == "rego"
      then if path == ""
        then (ok (rego (new_rego_engine allow)), e)
        else built_rego (rego_load wz.read_file prepare (new_rego_engine allow) path e)
      else (ok (wasm (new_wasm_runtime allow)), e)
