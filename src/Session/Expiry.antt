-- ===== src/Session/Expiry.antt =====
-- Expiry and early refresh.
use authsentinel.Base.{◌≡◌, ◌↔◌, ◌≤◌, ◌<◌, ◌-◌, ◌+◌, ℕ, true, pos, sub64, word_half, arith}
use authsentinel.Session.{Session, is_expired, needs_refresh}

sub64_pos : (a b : ℕ) → a < word_half → b ≤ a → sub64 (pos a) (pos b) ≡ pos (a - b)
unfolding sub64
sub64_pos a b h le = ground arith

-- For an expiry `t` below 2 ^ 63 and a margin `early` of at most `t` seconds, a session needs a refresh
-- exactly from `early` seconds before its expiry on, and is expired exactly from its expiry on.
pub needs_refresh_lem :
    (s : Session) (t now early : ℕ)
    → s.expires_at ≡ pos t
    → t < word_half
    → early ≤ t
    → ((needs_refresh s (pos now) (pos early) ≡ true) ↔ (t ≤ now + early))
      × ((is_expired s (pos now) ≡ true) ↔ (t ≤ now))
unfolding needs_refresh is_expired
needs_refresh_lem s t now early e small le =
    rw (e, sub64_pos t early small le) (ground arith, ground arith)
