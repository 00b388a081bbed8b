-- ===== src/Cookie/Tests.antt =====
-- A cookie signed with a secret that has been rotated since.
mod Values
use Prim.Native.Char.{Char, code}
use authsentinel.Base.{
  ◌≡◌, refl, inl, inr, String, [], ◌∷◌, Option, none, some, ok, eqb, eqb→eq, if◌then◌else◌,
  Bool-cases,
}
use authsentinel.Cookie.{SignedManager, Coding, encode, decode, try_older, decode_payload}
use authsentinel.Cookie.Signed.{Signed, decode-Signed, decode-encode}
use authsentinel.Text.{◌+s◌, cut}
use authsentinel.Text.Laws.{Lacks}
use text.Mathlib.TextEquality.{Char-path}

-- A code without dots: two characters for one.
unfoldable pub escape : String → String
escape String.[] = ""
escape (String.◌∷◌ c s) =
    let rest = escape s in
    if eqb (code c) b'.'
    then String.◌∷◌ "a" (String.◌∷◌ "a" rest)
    else String.◌∷◌ "b" (String.◌∷◌ c rest)

abbrev cons_to : Char → Option String → Option String
cons_to c none = none
cons_to c (some s) = some (String.◌∷◌ c s)

unfoldable pub unescape : String → Option String
unescape String.[] = some ""
unescape (String.◌∷◌ c String.[]) = none
unescape (String.◌∷◌ c (String.◌∷◌ d s)) =
    let rest = unescape s in cons_to (if eqb (code c) b'a' then "." else d) rest

pub unescape-escape : (s : String) → unescape (escape s) ≡ some s
unfolding unescape escape
unescape-escape String.[] = refl
unescape-escape (String.◌∷◌ c s) = elim (Bool-cases (eqb (code c) b'.')) [
  | inl dot ↦
      let same : c ≡ "." = Char-path c "." (eqb→eq _ _ dot) in rw same (rw (unescape-escape s) refl)
  | inr other ↦ rw (other) (rw (unescape-escape s) refl)
]

pub escape-Lacks : (s : String) → Lacks b'.' (escape s)
unfolding escape
escape-Lacks String.[] = tt
escape-Lacks (String.◌∷◌ c s) = elim (Bool-cases (eqb (code c) b'.')) [
  | inl dot ↦ rw dot (refl, (refl, escape-Lacks s))
  | inr other ↦ rw other (refl, (other, escape-Lacks s))
]

abbrev pub plain : Coding
plain = record { sign_with = λ secret text. secret +s text; encode = escape; decode = unescape }

abbrev pub old_keys : SignedManager
old_keys = record { primary = "k1"; older = [] }

abbrev pub new_keys : SignedManager
new_keys = record { primary = "k2"; older = "k1" ∷ [] }

decode-encode_example : decode plain new_keys "b1.bkb1bbb1" ≡ ok "1"
unfolding encode escape
decode-encode_example =
    decode-encode plain old_keys new_keys "1" "b1.bkb1bbb1" unescape-escape escape-Lacks
      (inr (inl refl)) refl

decode-Signed_example : Signed plain new_keys "b1.bkb1bbb1" "1"
unfolding decode cut try_older decode_payload unescape
decode-Signed_example = decode-Signed plain new_keys "b1.bkb1bbb1" "1" refl
