-- ===== src/Proxy/Resolver/Laws.antt =====
-- What the proxy's principal says, in terms of the agent's answer.
use authsentinel.Base.{
  ◌≡◌, refl, ap, insert, Result-cases, eqb→eq, arith, Bool-cases, inl, inr, String, List, [], ◌∷◌,
  Option, none, some, Result, ok, err, Dict, lookup, lookup-insert, is_empty, if◌then◌else◌, ◌==◌,
  eqb,
}
use authsentinel.Proxy.Resolver.{
  claims_or, value_or_empty, answer, principal_of, ResolveResponse, HttpResponse, AgentClient,
  resolve_response_to_principal, role_list, resolve, agent_resolve,
}
use authsentinel.Proxy.Types.{Request}
use authsentinel.Text.{◌+s◌}
use authsentinel.Token.Claims.{roles_of, normalize_claims, Principal}
use authsentinel.Value.{Value, Claims, get, string_of, strs}

abbrev pub roles_or : List String → Option Value → List String
roles_or [] v = role_list v
roles_or (r ∷ rs) v = r ∷ rs

-- Reading a claim behind the roles that were put in
abbrev added : List String → Dict Value → Claims
added roles m = if is_empty roles then some m else some (insert "roles" (strs roles) m)

get_sub-added :
    (roles : List String) (m : Dict Value)
    → get "sub" (claims_or (added roles m) (some m)) ≡ get "sub" (some m)
unfolding get
get_sub-added [] m = refl
get_sub-added (r ∷ rs) m = rw (lookup-insert "roles" "sub" (strs (r ∷ rs)) m) refl

get_roles-added :
    (roles : List String) (m : Dict Value)
    → role_list (get "roles" (claims_or (added roles m) (some m)))
      ≡ roles_or roles (get "roles" (some m))
unfolding get
get_roles-added [] m = refl
get_roles-added (r ∷ rs) m = rw (lookup-insert "roles" "roles" (strs (r ∷ rs)) m) refl

subject_lem :
    (claims : Claims) → get "sub" (claims_or (normalize_claims claims) claims) ≡ get "sub" claims
unfolding normalize_claims get lookup
subject_lem none = refl
subject_lem (some m) = get_sub-added (roles_of (some m)) m

roles_lem :
    (claims : Claims)
    → role_list (get "roles" (claims_or (normalize_claims claims) claims))
      ≡ roles_or (roles_of claims) (get "roles" claims)
unfolding normalize_claims get lookup
roles_lem none = refl
roles_lem (some m) = get_roles-added (roles_of (some m)) m

-- The principal has the subject of the agent's claims, its access token and its tenant context. Its
-- roles are those of realm_access.roles, if it has any, and else those of the claim "roles".
pub resolve_response_to_principal_lem :
    (r : ResolveResponse)
    → ((resolve_response_to_principal r).subject ≡ string_of (get "sub" r.claims))
      × ((resolve_response_to_principal r).roles
          ≡ roles_or (roles_of r.claims) (get "roles" r.claims))
      × ((resolve_response_to_principal r).access_token ≡ r.access_token)
      × ((resolve_response_to_principal r).tenant_context ≡ r.tenant_context)
unfolding resolve_response_to_principal
resolve_response_to_principal_lem r =
    (ap string_of (subject_lem r.claims), roles_lem r.claims, refl, refl)

-- The Cookie header of the request to the agent
abbrev pub sent_cookie : {E : Type 0} → AgentClient E → String → Request → Option String
sent_cookie c cookie_name req =
    let v = value_or_empty (lookup cookie_name req.cookies) in
    if v == "" then none else some (c.cookie_name +s "=" +s v)

answered :
    {E : Type 0} (c : AgentClient E) (x : Result HttpResponse) (p : Principal)
    → principal_of (answer c x) ≡ ok (some p)
    → (a : HttpResponse) × (r : ResolveResponse) × (x ≡ ok a)
      × (a.status_code ≡ 200)
      × (c.decode a.body ≡ ok r)
      × (p ≡ resolve_response_to_principal r)
answered c (err e) p h = ground (arith, h)
answered c (ok a) p h = elim (Bool-cases (eqb a.status_code 401)) [
  | inl e ↦ ground (arith, e, h)
  | inr no_401 ↦ elim (Bool-cases (eqb a.status_code 200)) [
    | inr e ↦ ground (arith, no_401, e, h)
    | inl is_200 ↦ elim (Result-cases (c.decode a.body)) [
      | inr (e, failed) ↦ ground (arith, no_401, is_200, failed, h)
      | inl (r, decoded) ↦
          (a, r, refl, eqb→eq _ _ is_200, decoded, ground (arith, no_401, is_200, decoded, h))
    ]
  ]
]

-- The proxy has a principal only where the agent answered 200 and its answer could be decoded. The
-- principal is then the one that the answer describes.
pub resolve-answered :
    {E : Type 0} (c : AgentClient E) (cookie_name : String) (req : Request) (env : E)
    (p : Principal)
    → (resolve c cookie_name req env).0 ≡ ok (some p)
    → (a : HttpResponse) × (r : ResolveResponse) × ((c.get_with_cookie
          (c.base_url +s "/internal/resolve")
          (sent_cookie c cookie_name req)
          env).0
        ≡ ok a)
      × (a.status_code ≡ 200)
      × (c.decode a.body ≡ ok r)
      × (p ≡ resolve_response_to_principal r)
unfolding resolve agent_resolve
resolve-answered c cookie_name req env p h =
    answered c
      (c.get_with_cookie (c.base_url +s "/internal/resolve") (sent_cookie c cookie_name req) env).0
      p h
