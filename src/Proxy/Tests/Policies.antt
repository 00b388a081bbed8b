-- ===== src/Proxy/Tests/Policies.antt =====
-- Policies that allow, and the fallback.
use authsentinel.Base.{
  ◌≡◌, ◌⊎◌, refl, ℕ, suc, true, false, [], ◌∷◌, Option, none, some, ok, pos, Exists, lookup, insert,
}
use authsentinel.Agent.Flow.{run}
use authsentinel.Policy.Engines.{wasm, rego, Codecs, decision}
use authsentinel.Policy.FailClosed.{Grants, PluginAllows, with_policy, handle-Decided}
use authsentinel.Policy.Rego.{RegoEngine, rego_evaluate, new_rego_engine}
use authsentinel.Policy.Wasm.{WasmRuntime, wasm_evaluate}
use authsentinel.Proxy.Engine.{respond, handle, input_of}
use authsentinel.Proxy.Engine.Headers.{upstream_headers}
use authsentinel.Proxy.Tests.{page, engine}
use authsentinel.Proxy.Types.{Decision}
use authsentinel.Token.Claims.{Principal}
use authsentinel.Value.{Value, end, field, bool, str, obj, number}

abbrev allowed : Decision
allowed = record {
  allow = true;
  status_code = pos 201;
  headers = some (("X-Policy", "p1") ∷ []);
  reason = "policy unavailable";
  obligations = none;
}

abbrev codecs : Codecs
codecs = record {
  parse_int = λ _. ok (pos 201);
  marshal = λ _. ok "{}";
  unmarshal = λ _. ok allowed;
  bytes = λ _. 2;
}

abbrev answer : Value
answer = obj (
    field "allow" (bool true) (
      field "status_code" (number "201")
        (field "headers" (obj (field "X-Policy" (str "p1") end)) end)))

abbrev policy : RegoEngine ℕ
policy = record {
  fallback_allow = false;
  bundle_path = "policy.rego";
  prepared = some (λ _ n. (ok ((answer ∷ []) ∷ []), suc n));
}

-- What the policy leaves out comes from the fallback.
rego_test : (decision codecs (rego policy) (input_of page none) 0).0 ≡ allowed
unfolding rego_evaluate lookup insert
rego_test = refl

unloaded_test :
    (decision {E = ℕ} codecs (rego (new_rego_engine false)) (input_of page none) 0).0.status_code
    ≡ pos 503
unfolding rego_evaluate
unloaded_test = refl

-- A module that leaves its answer at 8
abbrev runtime : WasmRuntime ℕ
runtime = record {
  fallback_allow = false;
  bundle_path = "";
  loaded_module = some (record {
    memory = some (record { write = λ _ _ n. (true, n); read = λ _ _ n. (some "{}", n) });
    evaluate = some (λ _ _ n. (ok (8 ∷ 2 ∷ []), suc n));
  });
}

wasm_test : decision codecs (wasm runtime) (input_of page none) 0 ≡ (allowed, 1)
unfolding wasm_evaluate run
wasm_test = refl

handle-Decided_example :
    (principal : Option Principal) × (Exists
        (PluginAllows codecs engine (rego policy) page principal)
        engine.plugins
      ⊎ ((at : ℕ) × Grants codecs (rego policy) (input_of page principal) at))
unfolding handle respond run upstream_headers rego_evaluate lookup insert
handle-Decided_example =
    handle-Decided codecs engine (rego policy) page 0
      (handle (with_policy codecs engine (rego policy) page) page 0).0
      (handle (with_policy codecs engine (rego policy) page) page 0).1 refl refl refl
