-- ===== src/Agent/ErrorMap/Statuses.antt =====
-- Which status an error made by the package's constructors gets.
use authsentinel.Base.{◌≡◌, arith, Bool, ◌||◌, String, some, if◌then◌else◌}
use authsentinel.Agent.ErrorMap.{new_not_found, new_unauthorized, is_client_mistake, status_for}
use authsentinel.Text.{◌+s◌, contains}
use authsentinel.Text.Laws.{contains-prefix}

abbrev pub mentions_not_found : String → Bool
mentions_not_found s = contains s "not found" || contains s "NotFound"

-- A NotFound error gets 404 and an Unauthorized error gets 401, except that a text which mentions
-- "missing", "required", "invalid" or "redirect" makes either 400, and one which mentions "not found"
-- or "NotFound" makes the Unauthorized error 404.
pub status_for-constructors :
    (msg : String)
    → (status_for (some (new_not_found msg))
        ≡ (if is_client_mistake (new_not_found msg).text then 400 else 404))
      × (status_for (some (new_unauthorized msg)) ≡ (
          if is_client_mistake (new_unauthorized msg).text
          then 400
          else if mentions_not_found (new_unauthorized msg).text
          then 404
          else 401))
unfolding status_for
status_for-constructors msg = (
  ground (arith, contains-prefix "not found" ("\n" +s msg)),
  ground (arith, contains-prefix "unauthorized" ("\n" +s msg)),
)
