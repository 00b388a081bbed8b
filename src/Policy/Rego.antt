-- ===== src/Policy/Rego.antt =====
-- pkg/policy/rego.go. A query is what Eval answers: for every result the values of its expressions.
pub mod Grants
use authsentinel.Base.{
  Bool, true, false, String, List, [], ◌∷◌, Option, none, some, Result, ok, err, ℤ, Dict, insert,
}
use authsentinel.Policy.Fallback.{fallback_decision}
use authsentinel.Proxy.Types.{Decision, Input}
use authsentinel.Text.{◌+s◌}
use authsentinel.Value.{
  Value, Fields, Claims, bool, int, float, str, number, obj, get, entries, truncate,
}

abbrev pub Query : Type 0 → Type 0
Query E = Input → E → Result (List (List Value)) × E

pub record RegoEngine (E : Type 0) : Type 0 where
  pub fallback_allow : Bool
  pub bundle_path : String
  pub prepared : Option (Query E)

abbrev pub new_rego_engine : {E : Type 0} → Bool → RegoEngine E
new_rego_engine allow = record { fallback_allow = allow; bundle_path = ""; prepared = none }

abbrev parsed : Result ℤ → Option ℤ
parsed (ok n) = some n
parsed (err _) = none

-- asInt, over strconv.ParseInt in base 10; Go's other number types do not occur
unfoldable pub as_int : (String → Result ℤ) → Option Value → Option ℤ
unfolding truncate
as_int parse_int (some (int n)) = some n
as_int parse_int (some (float f)) = some (truncate f)
as_int parse_int (some (number t)) = parsed (parse_int t)
as_int parse_int (some (str t)) = parsed (parse_int t)
as_int parse_int _ = none

abbrev with_allow : Option Value → Decision → Decision
with_allow (some (bool b)) d = record d { allow = b }
with_allow _ d = d

abbrev with_status : Option ℤ → Decision → Decision
with_status (some n) d = record d { status_code = n }
with_status none d = d

abbrev with_reason : Option Value → Decision → Decision
with_reason (some (str s)) d = record d { reason = s }
with_reason _ d = d

-- The values that are strings go into the map.
unfoldable pub string_headers : Fields → Dict String → Dict String
unfolding insert
string_headers Fields.end m = m
string_headers (Fields.field k (str v) fs) m = string_headers fs (insert k v m)
string_headers (Fields.field k _ fs) m = string_headers fs m

abbrev made : Option (Dict String) → Dict String
made none = []
made (some m) = m

abbrev with_headers : Option Value → Decision → Decision
with_headers (some (obj fs)) d = record d { headers = some (string_headers fs (made d.headers)) }
with_headers _ d = d

abbrev with_obligations : Option Value → Decision → Decision
with_obligations (some (obj fs)) d = record d { obligations = some (entries fs) }
with_obligations _ d = d

-- decisionFromAny: what the policy leaves out is taken from the fallback.
unfoldable pub decision_from_any : (String → Result ℤ) → Claims → Decision → Decision
unfolding get as_int string_headers
decision_from_any parse_int m fallback = with_obligations (get "obligations" m) (
    with_headers (get "headers" m) (
      with_reason (get "reason" m) (
        with_status (as_int parse_int (get "status_code" m))
          (with_allow (get "allow" m) fallback))))

module _ {E : Type 0} (parse_int : String → Result ℤ) (engine : RegoEngine E) where
  -- The value of the first expression of the first result is the decision.
  abbrev pub decided : Result (List (List Value)) → Decision
  decided (ok ((obj fs ∷ _) ∷ _)) =
      decision_from_any parse_int (some (entries fs)) (fallback_decision engine.fallback_allow)
  decided _ = fallback_decision engine.fallback_allow

  abbrev pub answer : Result (List (List Value)) × E → Decision × E
  answer (rs, e) = (decided rs, e)

  abbrev pub evaluate_by : Option (Query E) → Input → E → Decision × E
  evaluate_by none input e = (fallback_decision engine.fallback_allow, e)
  evaluate_by (some query) input e = answer (query input e)

  unfoldable pub rego_evaluate : Input → E → Decision × E
  unfolding decision_from_any
  rego_evaluate = evaluate_by engine.prepared

abbrev is_some : {A : Type 0} → Option A → Bool
is_some none = false
is_some (some _) = true

abbrev pub rego_loaded : {E : Type 0} → RegoEngine E → Bool
rego_loaded engine = is_some engine.prepared

-- Load: the file is read and compiled; an error leaves the engine as it was.
module _ {E : Type 0} (read_file : String → E → Result String × E)
    (prepare : String → E → Result (Query E) × E) where
  abbrev pub prepared_as :
      RegoEngine E → String → Result (Query E) × E → Result (Unit {0}) × RegoEngine E × E
  prepared_as engine path (err m, e) = (err ("policy: compile rego: " +s m), engine, e)
  prepared_as engine path (ok query, e) =
      (ok tt, record engine { bundle_path = path; prepared = some query }, e)

  abbrev pub read_as :
      RegoEngine E → String → Result String × E → Result (Unit {0}) × RegoEngine E × E
  read_as engine path (err m, e) = (err ("policy: read rego: " +s m), engine, e)
  read_as engine path (ok src, e) = prepared_as engine path (prepare src e)

  abbrev pub rego_load : RegoEngine E → String → E → Result (Unit {0}) × RegoEngine E × E
  rego_load engine path e = read_as engine path (read_file path e)
