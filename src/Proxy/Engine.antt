-- ===== src/Proxy/Engine.antt =====
-- DefaultEngine.Handle of pkg/proxy/engine.go. Spans of the tracer are left out.
pub mod Headers
pub mod Allowed
use authsentinel.Base.{
  Bool, true, false, ◌&&◌, not, String, List, [], ◌∷◌, Option, none, some, Result, ok, err, ℤ, pos,
  Dict, if◌then◌else◌, ◌==◌,
}
use authsentinel.Agent.Flow.{M, ◌>>=◌, pure, stop, checked, call, run}
use authsentinel.Proxy.Engine.Headers.{upstream_headers}
use authsentinel.Proxy.Types.{Request, Response, Decision, Input}
use authsentinel.Text.{◌+s◌, replace_all}
use authsentinel.Token.Claims.{Principal}
use authsentinel.Value.{Claims}

-- `E` is the state of everything that the engine calls. The engine has an upstream URL and a tracer
-- besides these fields, and Handle makes no decision by them.
abbrev pub Plugin : Type 0 → Type 0
Plugin E = Request → Option Principal → E → Result (Option Decision) × E

pub record Engine (E : Type 0) : Type 0 where
  pub resolver : Request → E → Result (Option Principal) × E
  pub policy : Input → E → Result (Option Decision) × E
  pub plugins : List (Option (Plugin E))
  pub require_auth : Bool
  pub header_builder : Option (Principal → Claims → Dict String)
  pub metrics : Option (Bool → ℤ → E → Unit {0} × E)

unfoldable pub escape_json : String → String
unfolding replace_all
escape_json s = replace_all b'"' "\\\"" (replace_all b'\\' "\\\\" s)

abbrev errors_body : String → String
errors_body message = "{\"errors\":[{\"message\":\"" +s message +s "\"}]}"

abbrev pub refusal : ℤ → String → Response
refusal code message = record {
  allow = false;
  upstream_headers = none;
  status_code = code;
  body = errors_body message;
}

abbrev pub input_of : Request → Option Principal → Input
input_of req principal = record {
  protocol = req.protocol;
  method = req.method;
  path = req.path;
  graphql_operation = req.graphql_operation;
  grpc_service = req.grpc_service;
  grpc_method = req.grpc_method;
  principal = principal;
  headers = req.headers;
}

-- The decision where neither plugin nor policy makes one
abbrev pub no_decision : Decision
no_decision = record {
  allow = false;
  status_code = pos 503;
  headers = none;
  reason = "";
  obligations = none;
}

abbrev pub or_denied : Option Decision → Decision
or_denied none = no_decision
or_denied (some d) = d

abbrev is_nil : Option Principal → Bool
is_nil none = true
is_nil (some _) = false

module _ {E : Type 0} (e : Engine E) (req : Request) where
  abbrev HandleFlow : Type 0 → Type 0
  HandleFlow = M E Response

  or_next : HandleFlow (Option Decision) → Option Decision → HandleFlow (Option Decision)
  or_next rest none = rest
  or_next rest (some d) = pure (some d)

  -- The loop over the plugins: the first decision ends it.
  run_plugins : Option Principal → List (Option (Plugin E)) → HandleFlow (Option Decision)
  unfolding or_next
  run_plugins principal [] = pure none
  run_plugins principal (none ∷ ps) = run_plugins principal ps
  run_plugins principal (some p ∷ ps) =
      checked (λ _. refusal (pos 503) "pipeline plugin error") (p req principal)
      >>= or_next (run_plugins principal ps)

  -- The policy is evaluated where no plugin has decided.
  or_policy : Option Principal → Option Decision → HandleFlow Decision
  or_policy principal (some d) = pure d
  or_policy principal none = do
    d ← checked (λ _. refusal (pos 500) "policy error") (e.policy (input_of req principal))
    pure (or_denied d)

  authenticated : Option Principal → HandleFlow (Unit {0})
  authenticated principal =
      if is_nil principal && e.require_auth
      then stop (refusal (pos 401) "unauthorized")
      else pure tt

  -- The response to a decision
  unfoldable pub respond : Decision → Option Principal → Response
  unfolding escape_json upstream_headers
  respond d principal = record {
    allow = d.allow;
    upstream_headers = upstream_headers e.header_builder d principal;
    status_code = d.status_code;
    body = if not (d.reason == "") && not d.allow then errors_body (escape_json d.reason) else "";
  }

  count_decision : Option (Bool → ℤ → E → Unit {0} × E) → Response → HandleFlow Response
  count_decision none r = pure r
  count_decision (some metrics) r = do _ ← call (metrics r.allow r.status_code); pure r

  handle_flow : HandleFlow Response
  unfolding run_plugins or_policy authenticated count_decision
  handle_flow = do
    principal ← checked (λ _. refusal (pos 502) "auth resolution failed") (e.resolver req)
    _ ← authenticated principal
    made ← run_plugins principal e.plugins
    decision ← or_policy principal made
    count_decision e.metrics (respond decision principal)

  unfoldable pub handle : E → Response × E
  unfolding handle_flow
  handle = run handle_flow
