-- ===== src/Agent/Config/Defaults.antt =====
-- ApplyDefaults can be applied again without an effect.
use authsentinel.Base.{◌≡◌, refl, zero, suc, String, ℤ, pos, negsuc, arith}
use authsentinel.Agent.Config.{Config, int_or, apply_defaults}
use authsentinel.Text.{text_or}

text_or-text_or : (d s : String) → text_or d (text_or d s) ≡ text_or d s
text_or-text_or d s = ground arith

int_or-int_or : (d z : ℤ) → int_or d (int_or d z) ≡ int_or d z
int_or-int_or (pos zero) (pos zero) = refl
int_or-int_or (pos (suc n)) (pos zero) = refl
int_or-int_or (negsuc n) (pos zero) = refl
int_or-int_or d (pos (suc n)) = refl
int_or-int_or d (negsuc n) = refl

-- Applying the defaults to a configuration that has them changes nothing.
pub apply_defaults_idempotent : (c : Config) → apply_defaults (apply_defaults c) ≡ apply_defaults c
unfolding apply_defaults
apply_defaults_idempotent c = simp (text_or-text_or, int_or-int_or) refl
