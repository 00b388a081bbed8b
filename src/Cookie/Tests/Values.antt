-- ===== src/Cookie/Tests/Values.antt =====
-- A cookie value under a cipher that puts a tag before the text.
use authsentinel.Base.{
  ◌≡◌, refl, ℕ, zero, suc, ◌+◌, String, some, ok, arith, ap, subst, ok_injective, ne_of_==-false,
}
use authsentinel.Cookie.Encrypt.{Aead, Crypto, size, encode_value, decode_value}
use authsentinel.Cookie.Encrypt.Roundtrip.{Lawful, size-append, decode_value-encode_value}
use authsentinel.Cookie.Tests.{plain, unescape-escape, escape}
use authsentinel.Text.{◌+s◌, strip}
use authsentinel.Text.Laws.{strip-append}

abbrev tag : String
tag = "0123456789abcdef"

abbrev tagging : Aead
tagging = record {
  nonce_size = 12;
  seal = λ nonce text. tag +s text;
  unseal = λ nonce text. strip tag text;
}

letters : ℕ → String
letters zero = ""
letters (suc n) = String.◌∷◌ "r" (letters n)

size-letters : (n : ℕ) → size (letters n) ≡ n
unfolding size letters
size-letters zero = refl
size-letters (suc n) = ap suc (size-letters n)

-- The state counts the nonces.
abbrev crypto : Crypto String ℕ
crypto = record {
  new_cipher = λ key. ok key;
  new_gcm = λ b. ok tagging;
  sha256 = λ key. key;
  random = λ n x. (ok (letters n), suc x);
}

crypto-Lawful : Lawful crypto
unfolding size
crypto-Lawful = record {
  random_size = λ n x x' r h. ground (arith, h, size-letters n);
  nonce_bytes = λ b a h. ground (arith, h);
  seal_size = λ b a nonce text h.
      subst (λ (x : Aead). size (x.seal nonce text) ≡ size text + 16) (ok_injective h)
        (omega (arith, size-append tag text));
  unseal-seal = λ b a nonce text h n.
      subst (λ (x : Aead). x.unseal nonce (x.seal nonce text) ≡ some text) (ok_injective h)
        (strip-append tag text);
}

decode_value-encode_value_example :
    decode_value crypto plain
      (λ (text : String). ok text)
      ok
      (escape ("rrrrrrrrrrrr" +s tag +s "v"))
      "key"
    ≡ ok "v"
unfolding encode_value letters escape size
decode_value-encode_value_example =
    decode_value-encode_value crypto crypto-Lawful plain (λ text. ok text) ok "v" "v" "key" _ 0 1
      unescape-escape refl (ne_of_==-false "v" "" refl) refl refl
