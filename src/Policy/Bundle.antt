-- ===== src/Policy/Bundle.antt =====
-- pkg/policy/bundle.go: compiled modules are kept by path and time of modification.
use authsentinel.Base.{
  ℕ, Bool, String, Option, none, some, Result, ok, err, Dict, lookup, insert, if◌then◌else◌, eqb,
}
use authsentinel.Policy.Wasm.{WasmRuntime, Wazero, new_wasm_runtime, load_compiled}

pub record CachedBundle (C : Type 0) : Type 0 where
  pub compiled : C
  pub mod_time : ℕ

pub record BundleLoader (C : Type 0) : Type 0 where
  pub cache : Dict (CachedBundle C)
  pub fallback_allow : Bool

module _ {C E : Type 0} (wz : Wazero C E) where
  abbrev Loaded : Type 0
  Loaded = Result (WasmRuntime E) × BundleLoader C × E

  abbrev engine_of : BundleLoader C → Result (Unit {0}) × WasmRuntime E × E → Loaded
  engine_of b (err m, w, e) = (err m, b, e)
  engine_of b (ok _, w, e) = (ok w, b, e)

  abbrev instantiate_engine : BundleLoader C → C → E → Loaded
  instantiate_engine b c e = engine_of b (load_compiled wz (new_wasm_runtime b.fallback_allow) c e)

  abbrev compiled_now : BundleLoader C → String → ℕ → Result C × E → Loaded
  compiled_now b path time (err m, e) = (err m, b, e)
  compiled_now b path time (ok c, e) =
      instantiate_engine
        (record b { cache = insert path (record { compiled = c; mod_time = time }) b.cache }) c e

  abbrev cached_or : BundleLoader C → String → ℕ → String → Option (CachedBundle C) → E → Loaded
  cached_or b path time text none e = compiled_now b path time (wz.compile text e)
  cached_or b path time text (some entry) e =
      let again = compiled_now b path time (wz.compile text e) in
      if eqb entry.mod_time time then instantiate_engine b entry.compiled e else again

  abbrev file_read : BundleLoader C → String → ℕ → Result String × E → Loaded
  file_read b path time (err m, e) = (err m, b, e)
  file_read b path time (ok text, e) = cached_or b path time text (lookup path b.cache) e

  abbrev stat : BundleLoader C → String → Result ℕ × E → Loaded
  stat b path (err m, e) = (err m, b, e)
  stat b path (ok time, e) = file_read b path time (wz.read_file path e)

  unfoldable pub load_bundle : BundleLoader C → String → E → Loaded
  unfolding load_compiled lookup insert
  load_bundle b path e = stat b path (wz.mod_time path e)
