-- ===== src/Agent/Config/Keys.antt =====
-- The keys under which the program stores its records do not get mixed up.
use authsentinel.Base.{
  ◌≡◌, ◌↔◌, ◌⊎◌, ◌∙◌, ap, sym, refl, inl, inr, ==-false, ne_of_==-false, String, if◌then◌else◌,
  ◌==◌,
}
use authsentinel.Agent.Config.{Config, key_layout}
use authsentinel.Session.{
  session_key, pkce_key, refresh_lock_key, revoked_key, replay_key, KeyLayout,
}
use authsentinel.Text.{◌+s◌}
use authsentinel.Text.Clash.{Clash, Clash-ne, Clash-append, append-cancel}
use authsentinel.Text.Laws.{append-second}

-- What is stored under a key of its own
pub data Kind : Type 0 where
  a_session a_login a_refresh a_revocation a_replay : Kind

abbrev pub key_of : KeyLayout → Kind → String → String
key_of k a_session = session_key k
key_of k a_login = pkce_key k
key_of k a_refresh = refresh_lock_key k
key_of k a_revocation = revoked_key k
key_of k a_replay = replay_key k

abbrev suffix : Kind → String
suffix a_session = ":session:"
suffix a_login = ":pkce:"
suffix a_refresh = ":refresh_lock:"
suffix a_revocation = ":revoked:"
suffix a_replay = ":replay:"

apart : (i j : Kind) → (i ≡ j) ⊎ Clash (suffix i) (suffix j)
apart a_session a_session = inl refl
apart a_session a_login = inr (inr (inl refl))
apart a_session a_refresh = inr (inr (inl refl))
apart a_session a_revocation = inr (inr (inl refl))
apart a_session a_replay = inr (inr (inl refl))
apart a_login a_session = inr (inr (inl refl))
apart a_login a_login = inl refl
apart a_login a_refresh = inr (inr (inl refl))
apart a_login a_revocation = inr (inr (inl refl))
apart a_login a_replay = inr (inr (inl refl))
apart a_refresh a_session = inr (inr (inl refl))
apart a_refresh a_login = inr (inr (inl refl))
apart a_refresh a_refresh = inl refl
apart a_refresh a_revocation = inr (inr (inr (inr (inl refl))))
apart a_refresh a_replay = inr (inr (inr (inr (inl refl))))
apart a_revocation a_session = inr (inr (inl refl))
apart a_revocation a_login = inr (inr (inl refl))
apart a_revocation a_refresh = inr (inr (inr (inr (inl refl))))
apart a_revocation a_revocation = inl refl
apart a_revocation a_replay = inr (inr (inr (inr (inl refl))))
apart a_replay a_session = inr (inr (inl refl))
apart a_replay a_login = inr (inr (inl refl))
apart a_replay a_refresh = inr (inr (inr (inr (inl refl))))
apart a_replay a_revocation = inr (inr (inr (inr (inl refl))))
apart a_replay a_replay = inl refl

abbrev base_of : Config → String
base_of cfg = if cfg.session_redis_prefix == "" then "auth" else cfg.session_redis_prefix

key_of-suffix :
    (cfg : Config) (i : Kind) (a : String)
    → key_of (key_layout cfg) i a ≡ (base_of cfg +s suffix i) +s a
unfolding session_key pkce_key refresh_lock_key revoked_key replay_key key_layout
key_of-suffix cfg a_session a = refl
key_of-suffix cfg a_login a = refl
key_of-suffix cfg a_refresh a = refl
key_of-suffix cfg a_revocation a =
    rw
      (==-false _ "" (append-second (base_of cfg) ":revoked:" (ne_of_==-false ":revoked:" "" refl)))
      refl
key_of-suffix cfg a_replay a =
    rw (==-false _ "" (append-second (base_of cfg) ":replay:" (ne_of_==-false ":replay:" "" refl)))
      refl

same-key :
    (cfg : Config) (i j : Kind) (a b : String)
    → key_of (key_layout cfg) i a ≡ key_of (key_layout cfg) j b
    → (i ≡ j) × (a ≡ b)
same-key cfg i j a b e =
    let same : (base_of cfg +s suffix i) +s a ≡ (base_of cfg +s suffix j) +s b =
      sym (key_of-suffix cfg i a) ∙ e ∙ key_of-suffix cfg j b in
    elim (apart i j) [
      | inl k ↦ (
        k,
        append-cancel (base_of cfg +s suffix i) a b
            (same ∙ ap (λ x. (base_of cfg +s suffix x) +s b) (sym k)),
      )
      | inr differ ↦
          absurd (Clash-ne _ _ a b (Clash-append (base_of cfg) (suffix i) (suffix j) differ) same)
    ]

-- Under the configured prefix, two keys of sessions, PKCE states, refresh locks, revocations and replays
-- are the same only if they are of the same kind and for the same id.
pub key_layout-distinct :
    (cfg : Config) (i j : Kind) (a b : String)
    → (key_of (key_layout cfg) i a ≡ key_of (key_layout cfg) j b) ↔ ((i ≡ j) × (a ≡ b))
key_layout-distinct cfg i j a b = (
  same-key cfg i j a b,
  λ (k, e). ap (λ x. key_of (key_layout cfg) x a) k ∙ ap (key_of (key_layout cfg) j) e,
)
