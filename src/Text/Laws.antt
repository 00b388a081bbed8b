-- ===== src/Text/Laws.antt =====
-- Laws of the text functions.
use Prim.Native.Char.{Char, code}
use Prim.Native.String.{char_at}
use text.Mathlib.TextEquality.{Char-path}
use text.Mathlib.TextLemmas.{nil-append, cons-append}
use authsentinel.Base.{
  ℕ, false, ◌≡◌, ◌≢◌, refl, sym, ◌∙◌, subst, inl, inr, true, String, Option, none, some, arith, eqb,
  eqb→eq, Bool-cases, Option-cases,
}
use authsentinel.Text.{◌+s◌, is_some, strip, has_prefix, contains, cut}

-- Stripping a prefix takes the text apart.
pub strip_sound : (p s r : String) → strip p s ≡ some r → s ≡ p +s r
unfolding strip
strip_sound String.[] s r h = ground (arith, nil-append r)
strip_sound (String.◌∷◌ p ps) String.[] r h = ground arith
strip_sound (String.◌∷◌ p ps) (String.◌∷◌ c s) r h = elim (Bool-cases (eqb (code p) (code c))) [
  | inl e ↦
      let same : p ≡ c = Char-path p c (eqb→eq _ _ e) in
      rw (cons-append p ps r, same, ← strip_sound ps s r (ground arith))
  | inr e ↦ ground arith
]

pub strip-append : (p s : String) → strip p (p +s s) ≡ some s
unfolding strip
strip-append String.[] s = rw nil-append
strip-append (String.◌∷◌ p ps) s = rw (cons-append p ps s) (ground (arith, strip-append ps s))

pub has_prefix_sound : (s p : String) → has_prefix s p ≡ true → (r : String) × (s ≡ p +s r)
unfolding has_prefix
has_prefix_sound s p h = go (strip p s) refl h
  where
    go : (o : Option String) → strip p s ≡ o → is_some o ≡ true → (r : String) × (s ≡ p +s r)
    go none e k = ground arith
    go (some r) e k = (r, strip_sound p s r e)

-- No character of the text has this code.
abbrev pub Lacks : ℕ → String → Type 0
Lacks sep String.[] = Unit
Lacks sep (String.◌∷◌ c s) = (eqb (code c) sep ≡ false) × Lacks sep s

abbrev pub EndsOf : (s p q : String) → Type 0
EndsOf s p q = s ≡ p +s "." +s q

cut_sound_head :
    (c : Char) (s p q : String)
    → c ≡ "."
    → ◌≡◌ {A = Option (String × String)} (some ("", s)) (some (p, q))
    → EndsOf (String.◌∷◌ c s) p q
cut_sound_head c s p q e h =
    let first : "" ≡ p = ground (arith, h) in
    let rest : s ≡ q = ground (arith, h) in
    rw (e, rest, ← first, nil-append ("." +s q), cons-append (char_at "." 0) "" q, nil-append q)
      refl

pub cut_sound : (s p q : String) → cut b'.' s ≡ some (p, q) → EndsOf s p q
unfolding cut
cut_sound String.[] p q h = ground arith
cut_sound (String.◌∷◌ c s) p q h = elim (Bool-cases (eqb (code c) b'.')) [
  | inl e ↦ cut_sound_head c s p q (Char-path c "." (eqb→eq _ _ e)) (ground (arith, h))
  | inr e ↦ elim (Option-cases (cut b'.' s)) [
    | inl missing ↦ ground (arith, h)
    | inr ((p', q'), found) ↦
        let left : String.◌∷◌ c p' ≡ p = ground (arith, h) in
        let right : q' ≡ q = ground (arith, h) in
        rw (← left, ← right, cons-append c p' ("." +s q'), ← cut_sound s p' q' found) refl
  ]
]

pub cut-append : (p q : String) → Lacks b'.' p → cut b'.' (p +s "." +s q) ≡ some (p, q)
unfolding cut
cut-append String.[] q h =
    rw (nil-append ("." +s q), cons-append (char_at "." 0) "" q, nil-append q) refl
cut-append (String.◌∷◌ c p) q h =
    rw (cons-append c p ("." +s q)) (ground (arith, h.0, cut-append p q h.1))

pub has_prefix-append : (p s : String) → has_prefix (p +s s) p ≡ true
unfolding has_prefix
has_prefix-append p s = rw (strip-append p s) refl

pub contains-prefix : (p s : String) → contains (p +s s) p ≡ true
unfolding contains
contains-prefix p s = go (p +s s) (has_prefix-append p s)
  where
    go : (t : String) → has_prefix t p ≡ true → contains t p ≡ true
    go String.[] e = e
    go (String.◌∷◌ c t) e = rw e refl

abbrev Given : String → Type 0
Given String.[] = ⊥
Given (String.◌∷◌ c s) = Unit

-- A text with a part that is not empty
pub append-first : (p s : String) → p ≢ "" → p +s s ≢ ""
append-first String.[] s h e = absurd (h refl)
append-first (String.◌∷◌ c p) s h e = absurd (subst Given (sym (cons-append c p s) ∙ e) tt)

pub append-second : (p s : String) → s ≢ "" → p +s s ≢ ""
append-second String.[] s h e = absurd (h (sym (nil-append s) ∙ e))
append-second (String.◌∷◌ c p) s h e = absurd (subst Given (sym (cons-append c p s) ∙ e) tt)
