-- ===== src/Text/Clash.antt =====
-- Texts that differ within their common length, so that nothing appended makes them equal.
use Prim.Native.Char.{code}
use text.Mathlib.TextLemmas.{nil-append, cons-append}
use authsentinel.Base.{
  ◌≡◌, sym, ap, ◌∙◌, ◌≢◌, ◌⊎◌, inl, inr, false, String, Option, none, some, arith, eqb,
}
use authsentinel.Text.{◌+s◌, strip}
use authsentinel.Text.Laws.{strip-append}

abbrev pub Clash : String → String → Type 0
Clash (String.◌∷◌ c s) (String.◌∷◌ d t) = (eqb (code c) (code d) ≡ false) ⊎ Clash s t
Clash _ _ = ⊥

strip-Clash : (p q b : String) → Clash p q → strip p (q +s b) ≡ none
unfolding strip
strip-Clash String.[] String.[] b h = absurd h
strip-Clash String.[] (String.◌∷◌ d t) b h = absurd h
strip-Clash (String.◌∷◌ c s) String.[] b h = absurd h
strip-Clash (String.◌∷◌ c s) (String.◌∷◌ d t) b (inl differ) =
    rw (cons-append d t b) (ground (arith, differ))
strip-Clash (String.◌∷◌ c s) (String.◌∷◌ d t) b (inr later) =
    rw (cons-append d t b) (ground (arith, strip-Clash s t b later))

pub Clash-ne : (p q a b : String) → Clash p q → p +s a ≢ q +s b
Clash-ne p q a b h e =
    let stripped : some a ≡ none = sym (strip-append p a) ∙ ap (strip p) e ∙ strip-Clash p q b h in
    absurd (ground arith)

pub Clash-append : (base p q : String) → Clash p q → Clash (base +s p) (base +s q)
Clash-append String.[] p q h = rw (nil-append p, nil-append q) h
Clash-append (String.◌∷◌ c s) p q h =
    rw (cons-append c s p, cons-append c s q) (inr (Clash-append s p q h))

pub append-cancel : (p a b : String) → p +s a ≡ p +s b → a ≡ b
append-cancel p a b e =
    let same : ◌≡◌ {A = Option String} (some a) (some b) =
      sym (strip-append p a) ∙ ap (strip p) e ∙ strip-append p b in
    ground arith
