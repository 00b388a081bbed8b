-- ===== src/Token/Claims.antt =====
-- Principal and NormalizeClaims of pkg/token/claims.go
use authsentinel.Base.{String, List, Option, none, some, ℤ, insert, is_empty, if◌then◌else◌}
use authsentinel.Value.{Claims, get, strings_of, object_of, strs}

-- An `ExpiresAt` of `none` is the zero time.
pub record Principal : Type 0 where
  pub subject : String
  pub scopes : List String
  pub roles : List String
  pub claims : Claims
  pub expires_at : Option ℤ
  pub access_token : String
  pub tenant_context : Claims

-- The roles of a claims map: those of realm_access.roles, or else those of roles.
unfoldable pub roles_of : Claims → List String
unfolding get
roles_of claims =
    let nested = strings_of (get "roles" (object_of (get "realm_access" claims))) in
    if is_empty nested then strings_of (get "roles" claims) else nested

unfoldable pub normalize_claims : Claims → Claims
unfolding roles_of insert
normalize_claims none = none
normalize_claims (some claims) =
    let roles = roles_of (some claims) in
    if is_empty roles then some claims else some (insert "roles" (strs roles) claims)
