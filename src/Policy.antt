-- ===== src/Policy.antt =====
-- pkg/policy: the engines that evaluate Rego and WASM policies. OPA, the WASM runtime, the file system
-- and the JSON codec are parameters; `E` is the state of all of them.
pub mod Fallback
pub mod Wasm
pub mod Rego
pub mod Bundle
pub mod Engines
pub mod FailClosed
