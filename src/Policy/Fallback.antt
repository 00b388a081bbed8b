-- ===== src/Policy/Fallback.antt =====
-- The decision of pkg/policy/rego.go and pkg/policy/wasm.go where no policy makes one.
use authsentinel.Base.{Bool, true, false, none, pos}
use authsentinel.Proxy.Types.{Decision}

-- By FallbackConfig.Allow
abbrev pub fallback_decision : Bool → Decision
fallback_decision true = record {
  allow = true;
  status_code = pos 200;
  headers = none;
  reason = "";
  obligations = none;
}
fallback_decision false = record {
  allow = false;
  status_code = pos 503;
  headers = none;
  reason = "policy unavailable";
  obligations = none;
}
