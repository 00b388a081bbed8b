-- ===== src/Proxy/Resolver.antt =====
-- internal/proxy/resolver.go and AgentClient.Resolve of internal/proxy/agentclient.go: the proxy asks
-- the agent who the session cookie stands for.
pub mod Laws
use authsentinel.Base.{
  ℕ, Bool, true, false, String, List, [], ◌∷◌, Option, none, some, Result, ok, err, ℤ, Dict, lookup,
  eqb, if◌then◌else◌, ◌==◌,
}
use authsentinel.Proxy.Types.{Request}
use authsentinel.Text.{◌+s◌, trim_suffix}
use authsentinel.Token.Claims.{Principal, normalize_claims}
use authsentinel.Value.{
  Value, Claims, Float64, truncate, get, string_of, strings_of, strs, float, int,
}

pub record ResolveResponse : Type 0 where
  pub access_token : String
  pub claims : Claims
  pub tenant_context : Claims

pub record HttpResponse : Type 0 where
  pub status_code : ℕ
  pub body : String

-- `get url cookie` is an HTTP request, with a Cookie header where `cookie` is one; `decode` reads
-- the answer's JSON; `status_error` is the text of the error for a status and a body.
pub record AgentClient (E : Type 0) : Type 0 where
  pub base_url : String
  pub cookie_name : String
  pub get_with_cookie : String → Option String → E → Result HttpResponse × E
  pub decode : String → Result ResolveResponse
  pub status_error : ℕ → String → String

-- NewAgentClient keeps the base URL without a slash at its end.
unfoldable pub agent_base : String → String
unfolding trim_suffix
agent_base url = trim_suffix url "/"

abbrev responded : {A : Type 0} → Result A → Result (Option A)
responded (ok a) = ok (some a)
responded (err e) = err e

module _ {E : Type 0} (c : AgentClient E) where
  abbrev pub answer : Result HttpResponse → Result (Option ResolveResponse)
  answer (err e) = err e
  answer (ok r) =
      if eqb r.status_code 401
      then ok none
      else if eqb r.status_code 200
      then responded (c.decode r.body)
      else err (c.status_error r.status_code r.body)

  unfoldable pub agent_resolve : String → E → Result (Option ResolveResponse) × E
  agent_resolve session_cookie env =
      let sent =
        if session_cookie == "" then none else some (c.cookie_name +s "=" +s session_cookie) in
      let (r, env') = c.get_with_cookie (c.base_url +s "/internal/resolve") sent env in
      (answer r, env')

abbrev pub claims_or : Claims → Claims → Claims
claims_or none none = some []
claims_or none (some raw) = some raw
claims_or (some normal) raw = some normal

-- The roles of a claims map under "roles": a []string, or the strings of a []interface{}.
abbrev pub role_list : Option Value → List String
role_list (some (strs roles)) = roles
role_list v = strings_of v

-- The zero time where "exp" is not a number.
abbrev pub expiry_of : Option Value → Option ℤ
expiry_of (some (float t)) = some (truncate t)
expiry_of (some (int t)) = some t
expiry_of _ = none

unfoldable pub resolve_response_to_principal : ResolveResponse → Principal
unfolding normalize_claims get
resolve_response_to_principal r =
    let claims = claims_or (normalize_claims r.claims) r.claims in
    record {
      subject = string_of (get "sub" claims);
      scopes = [];
      roles = role_list (get "roles" claims);
      claims = claims;
      expires_at = expiry_of (get "exp" claims);
      access_token = r.access_token;
      tenant_context = r.tenant_context;
    }

abbrev pub principal_of : Result (Option ResolveResponse) → Result (Option Principal)
principal_of (err e) = err e
principal_of (ok none) = ok none
principal_of (ok (some r)) = ok (some (resolve_response_to_principal r))

abbrev pub value_or_empty : Option String → String
value_or_empty none = ""
value_or_empty (some v) = v

-- Resolve, for the resolver's cookie name
unfoldable pub resolve :
    {E : Type 0} → AgentClient E → String → Request → E → Result (Option Principal) × E
unfolding agent_resolve lookup
resolve c cookie_name req env =
    let (r, env') = agent_resolve c (value_or_empty (lookup cookie_name req.cookies)) env in
    (principal_of r, env')
