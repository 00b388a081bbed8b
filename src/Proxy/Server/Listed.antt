-- ===== src/Proxy/Server/Listed.antt =====
-- Which plugins the admin page lists.
use authsentinel.Base.{◌≡◌, ◌∙◌, refl, ap, String, List, [], ◌∷◌, some, Dict, lookup, All, map}
use authsentinel.Plugins.{Registration, Registry, registration_for}
use authsentinel.Proxy.Server.{entries_of, entry_before, listed_ids, plugin_health_list}
use authsentinel.Value.{Value, str}

-- An entry shows a value under a name that depends on the ID only.
module _ (r : Registry) (show : String → Registration → Dict Value) (name : String)
    (value : String → Value)
    (shows : (id : String) (reg : Registration) → lookup name (show id reg) ≡ some (value id)) where
  entries_of-listed :
      (ids : List String)
      → All (λ id. (reg : Registration) × (registration_for r id ≡ some reg)) ids
      → map (lookup name) (entries_of show r ids) ≡ map (λ id. some (value id)) ids
  unfolding entries_of
  entries_of-listed [] known = refl
  entries_of-listed (id ∷ ids) ((reg, found), known) =
      ap (λ o. map (lookup name) (entry_before show id o (entries_of show r ids))) found
      ∙ rw (shows id reg, entries_of-listed ids known) refl

-- Where every ID of the startup order is registered, the health list has one entry for each of them,
-- in their order.
pub plugin_health_list-listed :
    (r : Registry)
    → All (λ id. (reg : Registration) × (registration_for r id ≡ some reg)) (listed_ids r)
    → map (lookup "plugin_id") (plugin_health_list r) ≡ map (λ id. some (str id)) (listed_ids r)
unfolding lookup
plugin_health_list-listed r known =
    entries_of-listed r _ "plugin_id" str (λ id reg. refl) (listed_ids r) known
