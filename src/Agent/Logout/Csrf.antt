-- ===== src/Agent/Logout/Csrf.antt =====
-- The check on Origin and Referer, and the end of a session.
use text.Mathlib.TextLemmas.{append-nil}
use authsentinel.Text.{◌+s◌, has_prefix}
use authsentinel.Text.Laws.{has_prefix_sound, has_prefix-append}
use authsentinel.Base.{
  ◌⊎◌, inl, inr, ap, sym, ◌∙◌, Bool, Bool-cases, ◌||◌, or-eq-true, any, Exists, String, List, [],
  ◌∷◌, ◌==◌, ◌≡◌, ◌≢◌, ◌↔◌, true, false, succeeded, not, err, arith, eq_iff,
}
use authsentinel.Agent.Config.{Config}
use authsentinel.Agent.Deps.{Deps}
use authsentinel.Agent.Flow.{World, run}
use authsentinel.Agent.Logout.{LogoutRequest, base_of, listed, refused, logout}

-- A request is refused exactly when it has an Origin that is not the application's and no listed
-- origin or address of the application matches its Origin or Referer.
pub refused_iff :
    (cfg : Config) (req : LogoutRequest)
    → (refused cfg req ≡ true)
      ↔ ((req.origin ≢ "") × (req.origin ≢ base_of cfg) × (listed cfg req ≡ false))
unfolding refused
refused_iff cfg req =
    ground (arith, eq_iff req.origin "", eq_iff req.referer "", eq_iff req.origin (base_of cfg))

-- A configured origin is the request's Origin or Referer, or the Referer is below the application.
abbrev pub Vouches : Config → LogoutRequest → String → Type 0
Vouches cfg req o =
    (req.origin ≡ o)
    ⊎ (req.referer ≡ o)
    ⊎ ((r : String) × (req.referer ≡ (base_of cfg +s "/") +s r))

abbrev vouched : Config → LogoutRequest → String → Bool
vouched cfg req o =
    req.origin == o
    || req.referer == o
    || req.referer == base_of cfg +s "/"
    || has_prefix req.referer (base_of cfg +s "/")

vouched-Vouches :
    (cfg : Config) (req : LogoutRequest) (o : String) → vouched cfg req o ≡ true → Vouches cfg req o
vouched-Vouches cfg req o h =
    let below = base_of cfg +s "/" in
    let named = req.origin == o || req.referer == o in
    elim (or-eq-true (named || req.referer == below) (has_prefix req.referer below) h) [
      | inr under ↦ inr (inr (has_prefix_sound req.referer below under))
      | inl h ↦ elim (or-eq-true named (req.referer == below) h) [
        | inr same ↦ inr (inr ("", (eq_iff req.referer below).0 same ∙ sym (append-nil below)))
        | inl h ↦ elim (or-eq-true (req.origin == o) (req.referer == o) h) [
          | inl origin ↦ inl ((eq_iff req.origin o).0 origin)
          | inr referer ↦ inr (inl ((eq_iff req.referer o).0 referer))
        ]
      ]
    ]

Vouches-vouched :
    (cfg : Config) (req : LogoutRequest) (o : String) → Vouches cfg req o → vouched cfg req o ≡ true
Vouches-vouched cfg req o (inl e) = ground (arith, eq_iff req.origin o, e)
Vouches-vouched cfg req o (inr (inl e)) = ground (arith, eq_iff req.referer o, e)
Vouches-vouched cfg req o (inr (inr (r, e))) =
    let below : has_prefix req.referer (base_of cfg +s "/") ≡ true =
      ap (λ x. has_prefix x (base_of cfg +s "/")) e ∙ has_prefix-append (base_of cfg +s "/") r in
    ground (arith, below)

any-Exists :
    (cfg : Config) (req : LogoutRequest) (origins : List String)
    → any (vouched cfg req) origins ≡ true
    → Exists (Vouches cfg req) origins
any-Exists cfg req [] h = ground arith
any-Exists cfg req (o ∷ origins) h =
    elim (or-eq-true (vouched cfg req o) (any (vouched cfg req) origins) h) [
      | inl first ↦ inl (vouched-Vouches cfg req o first)
      | inr later ↦ inr (any-Exists cfg req origins later)
    ]

Exists-any :
    (cfg : Config) (req : LogoutRequest) (origins : List String)
    → Exists (Vouches cfg req) origins
    → any (vouched cfg req) origins ≡ true
Exists-any cfg req [] h = absurd h
Exists-any cfg req (o ∷ origins) (inl first) = ground (arith, Vouches-vouched cfg req o first)
Exists-any cfg req (o ∷ origins) (inr later) = ground (arith, Exists-any cfg req origins later)

listed-Vouches :
    (cfg : Config) (req : LogoutRequest)
    → (listed cfg req ≡ false) ↔ ¬ Exists (Vouches cfg req) cfg.allowed_redirect_origins
unfolding listed
listed-Vouches cfg req = (
  λ none_listed found.
      ground (arith, Exists-any cfg req cfg.allowed_redirect_origins found, none_listed),
  λ none_vouches. elim (Bool-cases (any (vouched cfg req) cfg.allowed_redirect_origins)) [
    | inl some_listed ↦
        absurd (none_vouches (any-Exists cfg req cfg.allowed_redirect_origins some_listed))
    | inr none_listed ↦ none_listed
  ],
)

module _ {S X : Type 0} (d : Deps S X) (cfg : Config) (req : LogoutRequest) (w : World S X) where
  logout-refused :
      (succeeded (logout d cfg req w).0 ≡ not (refused cfg req))
      × ((succeeded (logout d cfg req w).0 ≡ false)
          ↔ (logout d cfg req w ≡ (err "csrf: origin not allowed", w)))
  unfolding logout run
  logout-refused = ground arith

  -- Logout fails exactly where the request has an Origin, this is not the application's, no configured
  -- origin is the Origin or the Referer and, if any origin is configured, the Referer is not below the
  -- application. A failure has one error and changes nothing.
  pub logout_outcome :
      ((succeeded (logout d cfg req w).0 ≡ false) ↔ (
        (req.origin ≢ "")
        × (req.origin ≢ base_of cfg)
        × (¬ Exists (Vouches cfg req) cfg.allowed_redirect_origins)))
      × ((succeeded (logout d cfg req w).0 ≡ false)
          ↔ (logout d cfg req w ≡ (err "csrf: origin not allowed", w)))
  logout_outcome =
      let refuses = refused_iff cfg req in
      let listed_by = listed-Vouches cfg req in
      (
        (
          λ failed.
              let (origin, base, apart) = refuses.0 (ground (arith, failed, logout-refused.0)) in
              (origin, base, listed_by.0 apart),
          λ (origin, base, apart).
              let refuse = refuses.1 (origin, base, listed_by.1 apart) in
              ground (arith, refuse, logout-refused.0),
        ),
        logout-refused.1,
      )
