-- ===== src/Policy/Wasm.antt =====
-- pkg/policy/wasm.go. Pointers and lengths are words of 32 bits; texts stand for bytes.
pub mod Grants
use authsentinel.Base.{
  ℕ, ◌%◌, ◌^◌, Bool, true, false, not, String, List, [], ◌∷◌, Option, none, some, Result, ok, err,
  ℤ, Dict, if◌then◌else◌, eqb,
}
use authsentinel.Agent.Flow.{M, ◌>>=◌, pure, stop, checked, call, run}
use authsentinel.Policy.Fallback.{fallback_decision}
use authsentinel.Proxy.Types.{Decision, Input}
use authsentinel.Text.{◌+s◌}
use authsentinel.Value.{Claims}

-- ExportedMemory("memory"), with the number of bytes that a text takes
pub record Memory (E : Type 0) : Type 0 where
  pub write : ℕ → String → E → Bool × E
  pub read : ℕ → ℕ → E → Option String × E

-- A module: its memory and its function "evaluate"
pub record Module (E : Type 0) : Type 0 where
  pub memory : Option (Memory E)
  pub evaluate : Option (ℕ → ℕ → E → Result (List ℕ) × E)

pub record WasmRuntime (E : Type 0) : Type 0 where
  pub fallback_allow : Bool
  pub bundle_path : String
  pub loaded_module : Option (Module E)

abbrev pub new_wasm_runtime : {E : Type 0} → Bool → WasmRuntime E
new_wasm_runtime allow = record { fallback_allow = allow; bundle_path = ""; loaded_module = none }

module _ {E : Type 0} (marshal : Input → Result String) (unmarshal : String → Result Decision)
    (bytes : String → ℕ) (w : WasmRuntime E) where
  abbrev EvalFlow : Type 0 → Type 0
  EvalFlow = M E Decision

  abbrev fall_back : {A : Type 0} → EvalFlow A
  fall_back = stop (fallback_decision w.fallback_allow)

  present : {A : Type 0} → Option A → EvalFlow A
  present none = fall_back
  present (some a) = pure a

  -- len(results) != 2, and the pointer and the length
  two_results : List ℕ → EvalFlow (ℕ × ℕ)
  two_results (a ∷ b ∷ []) = pure (a % 2 ^ 32, b % 2 ^ 32)
  two_results _ = fall_back

  wasm_flow : Input → EvalFlow Decision
  unfolding present two_results
  wasm_flow input = do
    m ← present w.loaded_module
    text ← checked (λ _. fallback_decision w.fallback_allow) (λ e. (marshal input, e))
    mem ← present m.memory
    done ← call (mem.write 0 text)
    _ ← if done then pure tt else fall_back
    eval ← present m.evaluate
    results ← checked (λ _. fallback_decision w.fallback_allow) (eval 0 (bytes text))
    out ← two_results results
    _ ← if eqb out.1 0 then fall_back else pure tt
    buffer ← call (mem.read out.0 out.1)
    text ← present buffer
    checked (λ _. fallback_decision w.fallback_allow) (λ e. (unmarshal text, e))

  unfoldable pub wasm_evaluate : Input → E → Decision × E
  unfolding wasm_flow
  wasm_evaluate input = run (wasm_flow input)

abbrev is_some : {A : Type 0} → Option A → Bool
is_some none = false
is_some (some _) = true

abbrev pub wasm_loaded : {E : Type 0} → WasmRuntime E → Bool
wasm_loaded w = is_some w.loaded_module

-- What Load and the bundle loader use of wazero and the file system; `C` is a compiled module.
pub record Wazero (C E : Type 0) : Type 0 where
  pub read_file : String → E → Result String × E
  pub mod_time : String → E → Result ℕ × E
  pub compile : String → E → Result C × E
  pub instantiate : C → E → Result (Module E) × E
  pub close : Module E → E → E

module _ {C E : Type 0} (wz : Wazero C E) where
  abbrev close_old : Option (Module E) → E → E
  close_old none e = e
  close_old (some m) e = wz.close m e

  abbrev exports : WasmRuntime E → Module E → E → Result (Unit {0}) × WasmRuntime E × E
  exports w m e =
      if not (is_some m.evaluate)
      then (err "policy: wasm module must export \"evaluate\"", w, wz.close m e)
      else if not (is_some m.memory)
      then (err "policy: wasm module must export \"memory\"", w, wz.close m e)
      else (ok tt, record w { loaded_module = some m }, close_old w.loaded_module e)

  abbrev instantiated :
      WasmRuntime E → Result (Module E) × E → Result (Unit {0}) × WasmRuntime E × E
  instantiated w (err m, e) = (err ("policy: instantiate wasm: " +s m), w, e)
  instantiated w (ok m, e) = exports w m e

  unfoldable pub load_compiled : WasmRuntime E → C → E → Result (Unit {0}) × WasmRuntime E × E
  load_compiled w c e = instantiated w (wz.instantiate c e)

  abbrev compiled_as : WasmRuntime E → String → Result C × E → Result (Unit {0}) × WasmRuntime E × E
  compiled_as w path (err m, e) = (err ("policy: compile wasm: " +s m), w, e)
  compiled_as w path (ok c, e) = load_compiled (record w { bundle_path = path }) c e

  abbrev file_read :
      WasmRuntime E → String → Result String × E → Result (Unit {0}) × WasmRuntime E × E
  file_read w path (err m, e) = (err ("policy: read wasm: " +s m), w, e)
  file_read w path (ok text, e) = compiled_as w path (wz.compile text e)

  -- Load: the path is kept before the module is instantiated.
  unfoldable pub wasm_load : WasmRuntime E → String → E → Result (Unit {0}) × WasmRuntime E × E
  unfolding load_compiled
  wasm_load w path e = file_read w path (wz.read_file path e)
