-- ===== src/Plugins/Discovery.antt =====
-- pkg/plugindiscovery/discovery.go and pkg/plugins/builtin/registrar.go. The files are those of one
-- moment: reading and walking them are functions. The factories are left out, as in the registry.
pub mod Origin
use authsentinel.Base.{
  Bool, true, false, ◌||◌, not, String, List, [], ◌∷◌, Option, none, some, Result, ok, err,
  if◌then◌else◌, ◌==◌,
}
use authsentinel.Plugins.{Descriptor, Registry, register, disable}
use authsentinel.Text.{◌+s◌, cut_last}
use authsentinel.Value.{Claims}

pub record ManifestSignature : Type 0 where
  pub algorithm : String
  pub value : String

pub record Manifest : Type 0 where
  pub id : String
  pub kind : String
  pub name : String
  pub description : String
  pub version : String
  pub capabilities : List String
  pub depends_on : List String
  pub config_schema_ref : String
  pub enabled : Option Bool
  pub metadata : Claims
  pub signature : Option ManifestSignature

abbrev pub Verifier : Type 0
Verifier = String → Manifest → Result (Unit {0})

abbrev known_kind : String → Bool
known_kind kind = kind == "pipeline" || kind == "provider" || kind == "integration"

abbrev pub descriptor_of : Manifest → Descriptor
descriptor_of m = record {
  id = m.id;
  kind = m.kind;
  name = m.name;
  description = m.description;
  version = m.version;
  capabilities = m.capabilities;
  depends_on = m.depends_on;
  config_schema_ref = m.config_schema_ref;
}

-- `quote` is fmt's %q.
unfoldable pub to_descriptor : (String → String) → Manifest → Result Descriptor
to_descriptor quote m =
    if known_kind m.kind then ok (descriptor_of m) else err ("unknown plugin kind " +s quote m.kind)

-- filepath.Ext of a file's name
unfoldable pub ext : String → String
unfolding cut_last
ext name = elim (cut_last b'.' name) [ none ↦ "" | some (_, last) ↦ "." +s last ]

-- What filepath.WalkDir calls its function with, and whether os.IsNotExist holds of the error.
pub data WalkEntry : Type 0 where
  visited : (path name : String) (is_dir : Bool) → WalkEntry
  walk_error : (text : String) (not_exist : Bool) → WalkEntry

-- What discovery uses of its surroundings
pub record Files : Type 0 where
  pub walk_dir : String → List WalkEntry
  pub read_file : String → Result String
  pub unmarshal : String → Result Manifest
  pub quote : String → String

abbrev pub Outcome : Type 0
Outcome = Result (Unit {0}) × Registry

abbrev pub verified : Option Verifier → String → Manifest → Result (Unit {0})
verified none path m = ok tt
verified (some verify) path m = verify path m

abbrev or_same : Registry → Result Registry → Registry
or_same r (ok r') = r'
or_same r (err _) = r

abbrev switched_to : Option Bool → String → Registry → Registry
switched_to (some false) id r = or_same r (disable r id)
switched_to (some true) id r = r
switched_to none id r = r

abbrev pub switched : Manifest → Registry → Registry
switched m r = switched_to m.enabled m.id r

abbrev pub registered : Manifest → Registry → Result Registry → Outcome
registered m r (err e) = (err e, r)
registered m r (ok r') = (ok tt, switched m r')

module _ (f : Files) (verifier : Option Verifier) where
  abbrev pub described : String → Manifest → Registry → Result Descriptor → Outcome
  described path m r (err e) = (err ("manifest " +s path +s ": " +s e), r)
  described path m r (ok desc) = registered m r (register r desc)

  abbrev pub checked_manifest : String → Manifest → Registry → Result (Unit {0}) → Outcome
  checked_manifest path m r (err e) = (err ("verify manifest " +s path +s ": " +s e), r)
  checked_manifest path m r (ok _) = described path m r (to_descriptor f.quote m)

  abbrev pub unmarshalled : String → Registry → Result Manifest → Outcome
  unmarshalled path r (err e) = (err ("unmarshal manifest " +s path +s ": " +s e), r)
  unmarshalled path r (ok m) = checked_manifest path m r (verified verifier path m)

  abbrev pub file_read : String → Registry → Result String → Outcome
  file_read path r (err e) = (err ("read manifest " +s path +s ": " +s e), r)
  file_read path r (ok text) = unmarshalled path r (f.unmarshal text)

  unfoldable pub discover_single : String → Registry → Outcome
  unfolding to_descriptor register disable
  discover_single path r = file_read path r (f.read_file path)

  -- An error of the walk, which is kept with what os.IsNotExist says of it
  abbrev pub Walked : Type 0
  Walked = Option (String × Bool) × Registry

  abbrev pub continued : (Registry → Walked) → Outcome → Walked
  continued next (err e, r) = (some ("plugindiscovery: " +s e, false), r)
  continued next (ok _, r) = next r

  unfoldable pub walk : List WalkEntry → Registry → Walked
  unfolding discover_single ext
  walk [] r = (none, r)
  walk (walk_error text not_exist ∷ _) r = (some (text, not_exist), r)
  walk (visited path name is_dir ∷ more) r =
      if is_dir || not (ext name == ".json")
      then walk more r
      else continued (walk more) (discover_single path r)

  abbrev pub outcome : Walked → Outcome
  outcome (none, r) = (ok tt, r)
  outcome (some (e, true), r) = (ok tt, r)
  outcome (some (e, false), r) = (err e, r)

  unfoldable pub discover_from_dir : String → Registry → Outcome
  unfolding walk
  discover_from_dir root r = outcome (walk (f.walk_dir root) r)
