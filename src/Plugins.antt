-- ===== src/Plugins.antt =====
-- pkg/pluginregistry/registry.go: the plugins and their capabilities. `dependents` and
-- `sorted_startup` are written by BuildDependencyGraph, in the module Startup.
-- A registration is kept once, under its ID; a capability lists the IDs of its providers, where the
-- code lists pointers to their registrations. Factories and version ranges, which the registry only
-- passes on, are left out.
pub mod Registered
pub mod Disabled
pub mod Startup
pub mod Discovery
pub mod Builtin
mod Tests
use authsentinel.Base.{
  ℕ, zero, suc, ◌+◌, ◌-◌, Bool, true, false, ◌&&◌, not, String, List, [], ◌∷◌, ◌++◌, Option, none,
  some, Result, ok, err, Dict, lookup, insert, length, is_empty, eqb, if◌then◌else◌, ◌==◌,
}
use authsentinel.Text.{◌+s◌}

pub record Descriptor : Type 0 where
  pub id : String
  pub kind : String
  pub name : String
  pub description : String
  pub version : String
  pub capabilities : List String
  pub depends_on : List String
  pub config_schema_ref : String

pub record Registration : Type 0 where
  pub descriptor : Descriptor
  pub enabled : Bool
  pub state : String

pub record Registry : Type 0 where
  pub by_id : Dict Registration
  pub by_capability : Dict (List String)
  pub dependencies : Dict (List String)
  pub dependents : Dict (List String)
  pub sorted_startup : List String

abbrev pub new : Registry
new = record {
  by_id = [];
  by_capability = [];
  dependencies = [];
  dependents = [];
  sorted_startup = [];
}

-- m[k] of a map to slices: nil where the key is missing
abbrev items_of : Option (List String) → List String
items_of none = []
items_of (some xs) = xs

unfoldable pub slice_at : String → Dict (List String) → List String
unfolding lookup
slice_at k m = items_of (lookup k m)

-- m[k] = append(m[k], x)
unfoldable pub append_at : String → String → Dict (List String) → Dict (List String)
unfolding slice_at insert
append_at k x m = insert k (slice_at k m ++ (x ∷ [])) m

unfoldable pub provide : String → List String → Dict (List String) → Dict (List String)
unfolding append_at
provide id [] m = m
provide id (cap ∷ caps) m = provide id caps (append_at cap id m)

abbrev pub add_to : Registry → Descriptor → Registry
add_to r d = record r {
  by_id = insert d.id (record { descriptor = d; enabled = true; state = "registered" }) r.by_id;
  by_capability = provide d.id d.capabilities r.by_capability;
  dependencies =
      if is_empty d.depends_on then r.dependencies else insert d.id d.depends_on r.dependencies;
}

abbrev register_at : Registry → Descriptor → Option Registration → Result Registry
register_at r d (some _) = err ("pluginregistry: already registered: " +s d.id)
register_at r d none = ok (add_to r d)

unfoldable pub register : Registry → Descriptor → Result Registry
unfolding lookup insert provide
register r d = register_at r d (lookup d.id r.by_id)

abbrev set_at : Registry → String → Bool → Option Registration → Result Registry
set_at r id on none = err ("pluginregistry: unknown plugin: " +s id)
set_at r id on (some reg) =
    ok (record r { by_id = insert id (record reg { enabled = on }) r.by_id })

unfoldable pub enable : Registry → String → Result Registry
unfolding lookup insert
enable r id = set_at r id true (lookup id r.by_id)

unfoldable pub disable : Registry → String → Result Registry
unfolding lookup insert
disable r id = set_at r id false (lookup id r.by_id)

abbrev if_enabled : Option Registration → List Descriptor → List Descriptor
if_enabled none ds = ds
if_enabled (some reg) ds = if reg.enabled then reg.descriptor ∷ ds else ds

unfoldable pub enabled_among : Dict Registration → List String → List Descriptor
unfolding lookup
enabled_among regs [] = []
enabled_among regs (id ∷ ids) = if_enabled (lookup id regs) (enabled_among regs ids)

unfoldable pub resolve_by_capability : Registry → String → List Descriptor
unfolding slice_at enabled_among
resolve_by_capability r cap = enabled_among r.by_id (slice_at cap r.by_capability)

unfoldable pub resolve_all_by_kind : Dict Registration → String → List Descriptor
resolve_all_by_kind [] kind = []
resolve_all_by_kind ((_, reg) ∷ regs) kind =
    let rest = resolve_all_by_kind regs kind in
    if reg.enabled && reg.descriptor.kind == kind then reg.descriptor ∷ rest else rest

unfoldable pub registration_for : Registry → String → Option Registration
unfolding lookup
registration_for r id = lookup id r.by_id
