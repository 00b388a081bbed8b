-- ===== src/Proxy/Identity/Laws.antt =====
-- Where the identity headers come from.
use authsentinel.Base.{
  ◌≡◌, refl, Bool-cases, inl, inr, arith, not, ◌&&◌, String, none, some, Dict, lookup,
  lookup-insert, is_empty, if◌then◌else◌, ◌==◌,
}
use authsentinel.Proxy.Engine.Headers.{given}
use authsentinel.Proxy.Engine.Headers.Laws.{lookup-set_if}
use authsentinel.Proxy.Identity.{
  HeaderClaims, get_claim, get_claim_slice, is_admin, true_or_false, build_upstream_headers,
}
use authsentinel.Text.{join}
use authsentinel.Value.{Value, Claims, get, string_of}

get_claim-configured :
    (claims : Claims) (path : String)
    → (not (path == "") && given (get_claim claims path)) ≡ given (get_claim claims path)
unfolding get_claim
get_claim-configured claims path = elim (Bool-cases (path == "")) [
  | inl e ↦ rw e refl
  | inr e ↦ rw e refl
]

-- With claims, X-Is-Admin says whether an admin role is configured and the roles have it or
-- "administrator"; X-User-Id and X-Roles come from the configured claims, and X-Tenant-Id from the
-- configured claim or, where that is blank, from the tenant context.
pub build_upstream_headers_lem :
    (cfg : HeaderClaims) (access_token : String) (claims : Dict Value) (tenant : Claims)
    → (lookup "X-Is-Admin" (build_upstream_headers cfg access_token (some claims) tenant)
        ≡ some (true_or_false (is_admin cfg (some claims))))
      × (lookup "X-User-Id" (build_upstream_headers cfg access_token (some claims) tenant) ≡ (
          if given (get_claim (some claims) cfg.user_id)
          then some (get_claim (some claims) cfg.user_id)
          else none))
      × (lookup "X-Roles" (build_upstream_headers cfg access_token (some claims) tenant) ≡ (
          if is_empty (get_claim_slice (some claims) cfg.roles)
          then none
          else some (join (get_claim_slice (some claims) cfg.roles) ",")))
      × (lookup "X-Tenant-Id" (build_upstream_headers cfg access_token (some claims) tenant) ≡ (
          if given (get_claim (some claims) cfg.tenant_id)
          then some (get_claim (some claims) cfg.tenant_id)
          else if given (string_of (get "tenant_id" tenant))
          then some (string_of (get "tenant_id" tenant))
          else none))
unfolding build_upstream_headers lookup
build_upstream_headers_lem cfg access_token claims tenant = (
  simp (lookup-set_if, lookup-insert) (ground arith),
  simp (lookup-set_if, lookup-insert) (ground arith),
  simp (lookup-set_if, lookup-insert) (ground arith),
  simp (lookup-set_if, lookup-insert, get_claim-configured) (ground arith),
)
