-- ===== src/Proxy/Tests.antt =====
-- The proxy's theorems at small requests.
mod Policies
pub mod Configs
mod Limits
mod Pipelines
use authsentinel.Base.{
  ◌≡◌, refl, ◌≤◌, ◌*◌, ◌+◌, ◌-◌, ℕ, true, false, String, [], ◌∷◌, Option, none, some, ok, pos, Dict,
  is_empty, suc, arith,
}
use authsentinel.Proxy.Types.{Request, Decision}
use authsentinel.Agent.Flow.{run}
use authsentinel.Proxy.Engine.{Engine, respond, handle}
use authsentinel.Proxy.Engine.Allowed.{Allowed, handle-Allowed}
use authsentinel.Proxy.Engine.Headers.{upstream_headers, given}
use authsentinel.Proxy.Engine.Headers.Laws.{
  header_of, upstream_headers-built, default_header_builder-identity,
}
use authsentinel.Proxy.Http.Reached.{conclude-Allowed}
use authsentinel.Proxy.Http.{upstream_of, conclude, Header, outgoing_headers}
use authsentinel.Proxy.Identity.{
  HeaderClaims, get_claim, get_claim_slice, is_admin, true_or_false, build_upstream_headers,
}
use authsentinel.Proxy.Identity.Laws.{build_upstream_headers_lem}
use authsentinel.Proxy.RateLimit.{Config, token}
use authsentinel.Proxy.RateLimit.Bounds.{after, Arrival, admitted, admitted-bound}
use authsentinel.Proxy.Resolver.{
  ResolveResponse, HttpResponse, AgentClient, resolve, resolve_response_to_principal,
}
use authsentinel.Proxy.Resolver.Laws.{
  sent_cookie, roles_or, resolve-answered, resolve_response_to_principal_lem,
}
use authsentinel.Text.{◌+s◌, join}
use authsentinel.Token.Claims.{Principal, roles_of}
use authsentinel.Value.{Value, str, Claims, get, string_of}

abbrev ann : Principal
ann = record {
  subject = "ann";
  scopes = [];
  roles = "admin" ∷ "user" ∷ [];
  claims = some (("sub", str "ann") ∷ []);
  expires_at = none;
  access_token = "at";
  tenant_context = none;
}

abbrev pub page : Request
page = record {
  protocol = "http";
  method = "GET";
  path = "/page";
  headers = ("X-Forwarded-For", "10.0.0.1, 10.0.0.2") ∷ [];
  cookies = ("session", "c1") ∷ [];
  body = "";
  graphql_operation = "";
  grpc_service = "";
  grpc_method = "";
}

-- A policy that counts its calls and allows named users
abbrev policy_decision : Option Principal → Decision
policy_decision none = record {
  allow = false;
  status_code = pos 403;
  headers = none;
  reason = "no";
  obligations = none;
}
policy_decision (some _) = record {
  allow = true;
  status_code = pos 200;
  headers = none;
  reason = "";
  obligations = none;
}

abbrev pub engine : Engine ℕ
engine = record {
  resolver = λ _ s. (ok (some ann), s);
  policy = λ i s. (ok (some (policy_decision i.principal)), suc s);
  plugins = none ∷ some (λ _ _ s. (ok none, suc s)) ∷ [];
  require_auth = true;
  header_builder = none;
  metrics = none;
}

handle-Allowed_example :
    Allowed engine page 0 (respond engine page (policy_decision (some ann)) (some ann))
unfolding handle respond run upstream_headers
handle-Allowed_example =
    handle-Allowed engine page 0 (respond engine page (policy_decision (some ann)) (some ann)) 2
      refl refl

abbrev pub client : Header
client = ("Cookie", "session=c1" ∷ []) ∷ ("X-Roles", "admin" ∷ []) ∷ []

abbrev pub identity : String → String
identity k = k

abbrev told : Dict String
told = upstream_of (upstream_headers none (policy_decision (some ann)) (some ann))

abbrev no_ip : String → Option String
no_ip _ = none

abbrev limits : Config
limits = record { requests_per_minute = 60; burst = 2; key_strategy = "ip"; header_name = "" }

abbrev at : ℕ → Arrival
at t = record { request = page; principal = none; time = t }

-- After two requests an hour ago, two requests use up the burst, and a third one comes half a second later.
admitted-bound_example :
    admitted no_ip limits "10.0.0.1"
        (after no_ip limits [] (at 0 ∷ at 0 ∷ []))
        (at 3600000000000 ∷ at 3600000000000 ∷ at 3600500000000 ∷ [])
      * token
    ≤ 2 * token + (3600500000000 - 3600000000000) * 60
admitted-bound_example =
    admitted-bound no_ip limits "10.0.0.1" 0 3600000000000 3600500000000 (at 0 ∷ at 0 ∷ [])
      (at 3600000000000 ∷ at 3600000000000 ∷ at 3600500000000 ∷ [])
      (omega arith, (omega arith, omega arith))
      (omega arith, (omega arith, (omega arith, omega arith)))

abbrev agent_claims : Claims
agent_claims = some (("sub", str "ann") ∷ [])

abbrev agent_answer : ResolveResponse
agent_answer = record { access_token = "at"; claims = agent_claims; tenant_context = none }

abbrev agent : AgentClient ℕ
agent = record {
  base_url = "http://agent";
  cookie_name = "session";
  get_with_cookie = λ _ _ s. (ok (record { status_code = 200; body = "json" }), s);
  decode = λ _. ok agent_answer;
  status_error = λ _ body. body;
}

resolve-answered_example :
    (a : HttpResponse) × (r : ResolveResponse) × ((agent.get_with_cookie
        (agent.base_url +s "/internal/resolve")
        (sent_cookie agent "session" page)
        0).0
      ≡ ok a)
    × (a.status_code ≡ 200)
    × (agent.decode a.body ≡ ok r)
    × (resolve_response_to_principal agent_answer ≡ resolve_response_to_principal r)
unfolding resolve
resolve-answered_example =
    resolve-answered agent "session" page 0 (resolve_response_to_principal agent_answer) refl

abbrev header_claims : HeaderClaims
header_claims = record {
  user_id = "sub";
  email = "email";
  name = "name";
  preferred_username = "preferred_username";
  roles = "realm_access.roles";
  groups = "groups";
  tenant_id = "";
  admin_role = "admin";
}

abbrev sub_only : Dict Value
sub_only = ("sub", str "ann") ∷ []

conclude-Allowed_example :
    Allowed engine page 0 (handle engine page 0).0
    × (outgoing_headers identity client (upstream_of (handle engine page 0).0.upstream_headers)
        ≡ outgoing_headers identity client (upstream_of (handle engine page 0).0.upstream_headers))
unfolding conclude handle run respond
conclude-Allowed_example =
    conclude-Allowed engine page identity "http://bff" client
      (outgoing_headers identity client (upstream_of (handle engine page 0).0.upstream_headers)) 0
      refl
