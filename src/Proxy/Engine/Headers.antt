-- ===== src/Proxy/Engine/Headers.antt =====
-- The headers that pkg/proxy/engine.go sends upstream.
pub mod Laws
use authsentinel.Base.{
  Bool, true, false, ◌&&◌, not, String, List, [], ◌∷◌, Option, none, some, Dict, insert, is_empty,
  if◌then◌else◌, ◌==◌,
}
use authsentinel.Proxy.Types.{Decision}
use authsentinel.Text.{◌+s◌, has_prefix, trim_prefix, replace_all, join}
use authsentinel.Token.Claims.{Principal}
use authsentinel.Value.{Value, Claims, str, get, string_of}

-- `for k, v := range over { base[k] = v }`
unfoldable pub merge : Dict String → Dict String → Dict String
unfolding insert
merge base [] = base
merge base ((k, v) ∷ over) = insert k v (merge base over)

-- The header that one obligation asks for
unfoldable pub header_name : String → String
header_name k = replace_all b'_' "-" (trim_prefix k "set_header_")

unfoldable pub set_if : String → Bool → String → Dict String → Dict String
unfolding insert
set_if k given v h = if given then insert k v h else h

abbrev pub with_obligation : String → Value → Dict String → Dict String
with_obligation k (str s) h = set_if (header_name k) (has_prefix k "set_header_") s h
with_obligation k _ h = h

unfoldable pub with_obligations : Dict Value → Dict String → Dict String
unfolding set_if header_name
with_obligations [] h = h
with_obligations ((k, v) ∷ rest) h = with_obligation k v (with_obligations rest h)

abbrev pub given : String → Bool
given s = not (s == "")

unfoldable pub default_header_builder : Principal → Claims → Dict String
unfolding get
default_header_builder p obligations =
    let claim = λ (k : String). string_of (get k p.claims) in
    let tenant = string_of (get "tenant_id" p.tenant_context) in
    set_if "X-Tenant-Id" (given tenant) tenant (
      set_if "X-User-Preferred-Username" (given (claim "preferred_username"))
        (claim "preferred_username")
        (set_if "X-User-Full-Name" (given (claim "name")) (claim "name") (
          set_if "X-User-Email" (given (claim "email")) (claim "email") (
            set_if "X-Roles" (not (is_empty p.roles)) (join p.roles ",") (
              set_if "X-User-Id" (given p.subject) p.subject (
                set_if "Authorization" (given p.access_token) ("Bearer " +s p.access_token) []))))))

abbrev made : Option (Dict String) → Dict String
made none = []
made (some h) = h

-- The headers of the decision, a copy of the map; nil stays nil.
abbrev pub copied : Option (Dict String) → Option (Dict String)
copied none = none
copied (some h) = some (merge [] h)

abbrev pub obliged : Claims → Option (Dict String) → Option (Dict String)
obliged none h = h
obliged (some obligations) h = some (with_obligations obligations (made h))

abbrev pub identified : Dict String → Option (Dict String) → Option (Dict String)
identified built none = some built
identified built (some h) = some (merge h built)

abbrev pub builder_or_default :
    Option (Principal → Claims → Dict String) → Principal → Claims → Dict String
builder_or_default none = default_header_builder
builder_or_default (some b) = b

abbrev for_principal :
    Option (Principal → Claims → Dict String)
    → Decision
    → Option Principal
    → Option (Dict String)
    → Option (Dict String)
for_principal b d none h = h
for_principal b d (some p) h =
    if d.allow then identified (builder_or_default b p d.obligations) h else h

unfoldable pub upstream_headers :
    Option (Principal → Claims → Dict String) → Decision → Option Principal → Option (Dict String)
upstream_headers b d principal =
    for_principal b d principal (obliged d.obligations (copied d.headers))
