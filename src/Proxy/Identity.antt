-- ===== src/Proxy/Identity.antt =====
-- BuildUpstreamHeaders, getClaim and getClaimSlice of internal/proxy/headers.go
pub mod Laws
use authsentinel.Base.{
  Bool, true, false, ◌&&◌, ◌||◌, not, String, List, [], ◌∷◌, Option, none, some, Dict, insert,
  is_empty, any, if◌then◌else◌, ◌==◌,
}
use authsentinel.Proxy.Engine.Headers.{set_if, given}
use authsentinel.Text.{◌+s◌, split, join}
use authsentinel.Value.{Value, Claims, get, string_of, object_of, strings_of, strs}

-- The header claims of the proxy's configuration
pub record HeaderClaims : Type 0 where
  pub user_id : String
  pub email : String
  pub name : String
  pub preferred_username : String
  pub roles : String
  pub groups : String
  pub tenant_id : String
  pub admin_role : String

-- The value at a path of keys, every one but the last of which leads to a map.
unfoldable pub at_path : List String → Claims → Option Value
unfolding get
at_path [] claims = none
at_path (p ∷ []) claims = get p claims
at_path (p ∷ q ∷ ps) claims = at_path (q ∷ ps) (object_of (get p claims))

unfoldable pub get_claim : Claims → String → String
unfolding at_path split
get_claim claims path = if path == "" then "" else string_of (at_path (split b'.' path) claims)

abbrev items : Option Value → List String
items (some (strs xs)) = xs
items v = strings_of v

unfoldable pub get_claim_slice : Claims → String → List String
unfolding at_path split
get_claim_slice claims path = if path == "" then [] else items (at_path (split b'.' path) claims)

abbrev pub is_admin : HeaderClaims → Claims → Bool
is_admin cfg claims =
    not (cfg.admin_role == "")
    && any (λ r. r == cfg.admin_role || r == "administrator") (get_claim_slice claims cfg.roles)

abbrev pub true_or_false : Bool → String
true_or_false b = if b then "true" else "false"

abbrev bearer : String → Dict String
bearer access_token = set_if "Authorization" (given access_token) ("Bearer " +s access_token) []

-- The headers for claims that are not nil
abbrev from_claims : HeaderClaims → String → Claims → Claims → Dict String
from_claims cfg access_token claims tenant_context =
    let claim = λ (path : String). get_claim claims path in
    let roles = get_claim_slice claims cfg.roles in
    let groups = get_claim_slice claims cfg.groups in
    let context_tenant = string_of (get "tenant_id" tenant_context) in
    set_if "X-Tenant-Id" (not (cfg.tenant_id == "") && given (claim cfg.tenant_id))
      (claim cfg.tenant_id)
      (set_if "X-Tenant-Id" (given context_tenant) context_tenant (
        insert "X-Is-Admin" (true_or_false (is_admin cfg claims)) (
          set_if "X-Groups" (not (is_empty groups)) (join groups ",") (
            set_if "X-Roles" (not (is_empty roles)) (join roles ",") (
              set_if "X-User-Preferred-Username" (given (claim cfg.preferred_username))
                (claim cfg.preferred_username)
                (set_if "X-User-Full-Name" (given (claim cfg.name)) (claim cfg.name) (
                  set_if "X-User-Email" (given (claim cfg.email)) (claim cfg.email) (
                    set_if "X-User-Id" (given (claim cfg.user_id)) (claim cfg.user_id)
                      (bearer access_token)))))))))

unfoldable pub build_upstream_headers : HeaderClaims → String → Claims → Claims → Dict String
unfolding get set_if get_claim get_claim_slice insert
build_upstream_headers cfg access_token none tenant_context = bearer access_token
build_upstream_headers cfg access_token (some claims) tenant_context =
    from_claims cfg access_token (some claims) tenant_context
