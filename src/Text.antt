-- ===== src/Text.antt =====
-- The functions of Go's `strings` package that the program calls. A text is the sequence of its
-- characters (valid UTF-8); separators, prefixes and suffixes in the program are ASCII, so working
-- on characters and working on bytes give the same results.
pub mod Laws
pub mod Clash
use Prim.Native.Char.{Char, code}
use Prim.Native.String
use Prim.Native.String.{char_at}
use authsentinel.Base.{
  ℕ, ◌-◌, Bool, true, false, ◌&&◌, ◌||◌, not, String, List, [], ◌∷◌, Option, none, some, ltb, leb,
  ◌/◌, ◌%◌, ℤ, pos, negsuc, zero, suc, eqb, if◌then◌else◌, ◌==◌,
}

infixr 65 ◌+s◌
abbrev pub ◌+s◌ : String → String → String
s +s t = String.◌++◌ s t

-- What is left of a text behind a prefix.
unfoldable pub strip : String → String → Option String
strip String.[] s = some s
strip (String.◌∷◌ p ps) String.[] = none
strip (String.◌∷◌ p ps) (String.◌∷◌ c s) =
    let rest = strip ps s in if eqb (code p) (code c) then rest else none

abbrev is_some : Option String → Bool
is_some none = false
is_some (some _) = true

abbrev pub stripped : String → Option String → String
stripped s none = s
stripped s (some rest) = rest

-- The text `s`, or `d` in place of an empty one
abbrev pub text_or : String → String → String
text_or d s = if s == "" then d else s

-- strings.HasPrefix(s, p)
unfoldable pub has_prefix : String → String → Bool
unfolding strip
has_prefix s p = is_some (strip p s)

-- strings.TrimPrefix(s, p)
unfoldable pub trim_prefix : String → String → String
unfolding strip
trim_prefix s p = stripped s (strip p s)

-- strings.TrimSuffix(s, t)
unfoldable pub trim_suffix : String → String → String
trim_suffix String.[] t = ""
trim_suffix (String.◌∷◌ c s) t =
    let rest = String.◌∷◌ c (trim_suffix s t) in if String.◌∷◌ c s == t then "" else rest

-- strings.HasSuffix(s, t)
unfoldable pub has_suffix : String → String → Bool
has_suffix String.[] t = "" == t
has_suffix (String.◌∷◌ c s) t = String.◌∷◌ c s == t || has_suffix s t

-- strings.Contains(s, t)
unfoldable pub contains : String → String → Bool
unfolding has_prefix
contains String.[] t = has_prefix "" t
contains (String.◌∷◌ c s) t = has_prefix (String.◌∷◌ c s) t || contains s t

abbrev add_to_head : Char → List String → List String
add_to_head c [] = String.◌∷◌ c "" ∷ []
add_to_head c (p ∷ ps) = String.◌∷◌ c p ∷ ps

-- strings.Split(s, sep), for a separator of one character
unfoldable pub split : ℕ → String → List String
split sep String.[] = "" ∷ []
split sep (String.◌∷◌ c s) =
    let rest = split sep s in if eqb (code c) sep then "" ∷ rest else add_to_head c rest

abbrev cons_left : Char → Option (String × String) → Option (String × String)
cons_left c none = none
cons_left c (some (a, b)) = some (String.◌∷◌ c a, b)

abbrev or_else : Option (String × String) → Option (String × String) → Option (String × String)
or_else none b = b
or_else (some a) b = some a

-- The two sides of the last separator: strings.LastIndex and the slices around it.
unfoldable pub cut_last : ℕ → String → Option (String × String)
cut_last sep String.[] = none
cut_last sep (String.◌∷◌ c s) =
    or_else (cons_left c (cut_last sep s)) (if eqb (code c) sep then some ("", s) else none)

-- The two parts of strings.SplitN(s, sep, 2), where there are two.
unfoldable pub cut : ℕ → String → Option (String × String)
cut sep String.[] = none
cut sep (String.◌∷◌ c s) =
    let rest = cons_left c (cut sep s) in if eqb (code c) sep then some ("", s) else rest

-- strings.Join(parts, sep)
unfoldable pub join : List String → String → String
join [] sep = ""
join (p ∷ []) sep = p
join (p ∷ q ∷ ps) sep = p +s sep +s join (q ∷ ps) sep

-- strings.ReplaceAll(s, old, new), for an `old` of one character
unfoldable pub replace_all : ℕ → String → String → String
replace_all old new String.[] = ""
replace_all old new (String.◌∷◌ c s) =
    let rest = replace_all old new s in if eqb (code c) old then new +s rest else String.◌∷◌ c rest

-- unicode.IsSpace
unfoldable pub is_space : Char → Bool
is_space ch =
    let c = code ch in
    (leb 9 c && leb c 13)
    || eqb c 32
    || eqb c 0x85
    || eqb c 0xa0
    || eqb c 0x1680
    || (leb 0x2000 c && leb c 0x200a)
    || eqb c 0x2028
    || eqb c 0x2029
    || eqb c 0x202f
    || eqb c 0x205f
    || eqb c 0x3000

unfoldable pub trim_left : String → String
unfolding is_space
trim_left String.[] = ""
trim_left (String.◌∷◌ c s) = let rest = trim_left s in if is_space c then rest else String.◌∷◌ c s

abbrev cons_or_drop : Char → String → String
cons_or_drop c String.[] = if is_space c then "" else String.◌∷◌ c ""
cons_or_drop c (String.◌∷◌ d s) = String.◌∷◌ c (String.◌∷◌ d s)

unfoldable pub trim_right : String → String
unfolding is_space
trim_right String.[] = ""
trim_right (String.◌∷◌ c s) = cons_or_drop c (trim_right s)

-- strings.TrimSpace(s)
unfoldable pub trim_space : String → String
unfolding trim_left trim_right
trim_space s = trim_right (trim_left s)

-- unicode.ToLower on the characters whose lower case is ASCII: the letters A to Z, U+0130 and the
-- Kelvin sign U+212A. The program compares results with ASCII words only, so other characters,
-- whose lower case is not ASCII, may stay as they are.
unfoldable pub lower : Char → Char
lower c =
    if leb b'A' (code c) && leb (code c) b'Z'
    then char_at "abcdefghijklmnopqrstuvwxyz" (code c - b'A')
    else if eqb (code c) 0x130
    then char_at "i" 0
    else if eqb (code c) 0x212a
    then char_at "k" 0
    else c

-- strings.EqualFold(s, t), for a `t` of ASCII characters other than k and s, which alone have
-- characters outside ASCII that fold to them
unfoldable pub fold : Char → Char
unfolding lower
fold c = if leb b'A' (code c) && leb (code c) b'Z' then lower c else c

unfoldable pub equal_fold : String → String → Bool
unfolding fold
equal_fold String.[] String.[] = true
equal_fold (String.◌∷◌ c s) (String.◌∷◌ d t) = eqb (code (fold c)) (code (fold d)) && equal_fold s t
equal_fold _ _ = false

-- strings.ToLower(s)
unfoldable pub to_lower : String → String
unfolding lower
to_lower String.[] = ""
to_lower (String.◌∷◌ c s) = String.◌∷◌ (lower c) (to_lower s)

digits : ℕ → ℕ → String → String
digits zero n rest = rest
digits (suc fuel) n rest =
    let text = String.◌∷◌ (char_at "0123456789" (n % 10)) rest in
    let more = digits fuel (n / 10) text in if eqb (n / 10) 0 then text else more

-- strconv.Itoa; a number of 64 bits has at most 20 digits
unfoldable pub itoa : ℤ → String
unfolding digits
itoa (pos n) = digits 20 n ""
itoa (negsuc n) = "-" +s digits 20 (suc n) ""
