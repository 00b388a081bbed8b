-- ===== src/Value.antt =====
-- Go's `any` as the program uses it: values decoded from JSON, and the typed values that the code
-- itself puts into a claims map; `number` is a json.Number. Models the dynamic type tests of pkg/token/claims.go and others.
use authsentinel.Base.{
  ℕ, ◌*◌, ◌/◌, ◌^◌, Bool, String, List, [], ◌∷◌, Option, none, some, ℤ, pos, negsuc, Dict, lookup,
  ◌-◌, eqb, if◌then◌else◌,
}

-- A finite float64: the mantissa scaled up by a power of two and down by another.
pub record Float64 : Type 0 where
  pub negative : Bool
  pub mantissa : ℕ
  pub up : ℕ
  pub down : ℕ

-- int64(t): the fraction is discarded.
unfoldable pub truncate : Float64 → ℤ
truncate f =
    let n = f.mantissa * 2 ^ f.up / 2 ^ f.down in
    if f.negative then if eqb n 0 then pos 0 else negsuc (n - 1) else pos n

mutual
  pub data Value : Type 0 where
    null : Value
    bool : Bool → Value
    float : Float64 → Value
    int : ℤ → Value
    number : String → Value
    str : String → Value
    strs : List String → Value
    arr : Values → Value
    obj : Fields → Value

  pub data Values : Type 0 where
    nil : Values
    cons : Value → Values → Values

  pub data Fields : Type 0 where
    end : Fields
    field : String → Value → Fields → Fields

-- A map[string]any; `none` is the nil map, from which every read is a miss.
abbrev pub Claims : Type 0
Claims = Option (Dict Value)

unfoldable pub get : String → Claims → Option Value
unfolding lookup
get k none = none
get k (some m) = lookup k m

abbrev pub entries : Fields → Dict Value
entries end = []
entries (field k v fs) = (k, v) ∷ entries fs

-- v.(string), with "" for a value of another type: `s, _ := v.(string)`
abbrev pub string_of : Option Value → String
string_of (some (str s)) = s
string_of _ = ""

-- The strings of a []interface{}, other items passed over.
abbrev pub strings : Values → List String
strings nil = []
strings (cons (str s) vs) = s ∷ strings vs
strings (cons _ vs) = strings vs

-- v.([]interface{}), and its strings; nothing for a value of another type.
abbrev pub strings_of : Option Value → List String
strings_of (some (arr vs)) = strings vs
strings_of _ = []

-- v.(map[string]any), a nil map for a value of another type
abbrev pub object_of : Option Value → Claims
object_of (some (obj fs)) = some (entries fs)
object_of _ = none
