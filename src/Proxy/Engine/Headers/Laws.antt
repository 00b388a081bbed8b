-- ===== src/Proxy/Engine/Headers/Laws.antt =====
-- Which source of an upstream header wins.
use authsentinel.Base.{
  ◌≡◌, refl, Bool, true, false, ◌&&◌, String, [], ◌∷◌, Option, none, some, arith, Dict, is_empty,
  lookup, lookup-insert, if◌then◌else◌, ◌==◌,
}
use authsentinel.Proxy.Types.{Decision}
use authsentinel.Proxy.Engine.Headers.{
  builder_or_default, merge, identified, obliged, copied, set_if, given, default_header_builder,
  upstream_headers,
}
use authsentinel.Text.{◌+s◌, join}
use authsentinel.Token.Claims.{Principal}
use authsentinel.Value.{Claims}

abbrev pub first_some : Option String → Option String → Option String
first_some none b = b
first_some (some a) b = some a

pub lookup-merge :
    (k : String) (base over : Dict String)
    → lookup k (merge base over) ≡ first_some (lookup k over) (lookup k base)
unfolding merge lookup
lookup-merge k base [] = refl
lookup-merge k base ((j, v) ∷ over) =
    ground (arith, lookup-insert j k v (merge base over), lookup-merge k base over)

pub lookup-set_if :
    (k j : String) (g : Bool) (v : String) (h : Dict String)
    → lookup j (set_if k g v h) ≡ (if (k == j) && g then some v else lookup j h)
unfolding set_if
lookup-set_if k j true v h = ground (arith, lookup-insert k j v h)
lookup-set_if k j false v h = ground arith

-- A header of the decision itself
abbrev pub header_of : Option (Dict String) → String → Option String
header_of none k = none
header_of (some h) k = lookup k h

identified-wins :
    (built : Dict String) (h : Option (Dict String)) (k v : String)
    → lookup k built ≡ some v
    → header_of (identified built h) k ≡ some v
identified-wins built none k v e = e
identified-wins built (some h) k v e = rw (lookup-merge k h built, e) refl

-- On an allowed request with a principal, the map of upstream headers has the builder's value under
-- a name that the builder sets, whatever the decision's headers and obligations say under this name.
pub upstream_headers-built :
    (b : Option (Principal → Claims → Dict String)) (d : Decision) (p : Principal) (k v : String)
    → d.allow ≡ true
    → lookup k (builder_or_default b p d.obligations) ≡ some v
    → header_of (upstream_headers b d (some p)) k ≡ some v
unfolding upstream_headers
upstream_headers-built b d p k v allowed built =
    rw allowed (identified-wins _ (obliged d.obligations (copied d.headers)) k v built)

-- The default builder sets X-User-Id to the principal's subject, Authorization to its access token
-- and X-Roles to its roles, each only where the principal has one.
pub default_header_builder-identity :
    (p : Principal) (o : Claims)
    → (lookup "X-User-Id" (default_header_builder p o)
        ≡ (if given p.subject then some p.subject else none))
      × (lookup "Authorization" (default_header_builder p o)
          ≡ (if given p.access_token then some ("Bearer " +s p.access_token) else none))
      × (lookup "X-Roles" (default_header_builder p o)
          ≡ (if is_empty p.roles then none else some (join p.roles ",")))
unfolding default_header_builder lookup
default_header_builder-identity p o = (
  simp lookup-set_if (ground arith),
  simp lookup-set_if (ground arith),
  simp lookup-set_if (ground arith),
)
