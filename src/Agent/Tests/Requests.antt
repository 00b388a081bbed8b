-- ===== src/Agent/Tests/Requests.antt =====
-- Other requests against the small stores.
use authsentinel.Base.{
  Exists, ◌≡◌, refl, ◌≢◌, ◌↔◌, ne_of_==-false, false, String, [], ◌∷◌, err, succeeded,
}
use authsentinel.Agent.Config.{key_layout}
use authsentinel.Agent.Config.Keys.{key_of, a_refresh, a_replay, key_layout-distinct}
use authsentinel.Agent.Redirect.{validate_redirect}
use authsentinel.Agent.Redirect.Safe.{Permitted, validate_redirect-Permitted}
use authsentinel.Agent.Logout.{base_of, logout}
use authsentinel.Agent.Logout.Csrf.{Vouches, logout_outcome}
use authsentinel.Text.{trim_space, has_prefix, trim_suffix}
use authsentinel.Agent.Tests.{config, deps, foreign, no_url, world}

logout_outcome_example :
    ((succeeded (logout deps config foreign world).0 ≡ false) ↔ (
      (foreign.origin ≢ "")
      × (foreign.origin ≢ base_of config)
      × (¬ Exists (Vouches config foreign) config.allowed_redirect_origins)))
    × ((succeeded (logout deps config foreign world).0 ≡ false)
        ↔ (logout deps config foreign world ≡ (err "csrf: origin not allowed", world)))
logout_outcome_example = logout_outcome deps config foreign world

validate_redirect-Permitted_example :
    Permitted no_url "https://app/" [] ("/in" ∷ []) "https://app/inbox"
unfolding validate_redirect trim_space has_prefix trim_suffix
validate_redirect-Permitted_example =
    validate_redirect-Permitted no_url "https://app/" [] ("/in" ∷ []) " /inbox " "https://app/inbox"
      refl (ne_of_==-false "https://app/inbox" "" refl)

key_layout-distinct_example :
    (key_of (key_layout config) a_refresh "a" ≡ key_of (key_layout config) a_replay "b")
    ↔ ((a_refresh ≡ a_replay) × (◌≡◌ {A = String} "a" "b"))
key_layout-distinct_example = key_layout-distinct config a_refresh a_replay "a" "b"
