-- ===== src/Proxy/Engine/Allowed.antt =====
-- What has to happen before the engine lets a request through.
use authsentinel.Base.{
  ◌≡◌, refl, sym, ap, subst, ◌∙◌, ◌⊎◌, inl, inr, Bool, true, false, List, [], ◌∷◌, Option, none,
  some, ℤ, ok, arith, Bool-cases,
}
use mathlib.Core.Option.{none-ne-some, some-injective}
use authsentinel.Agent.Flow.{go}
use authsentinel.Agent.Flow.Laws.{
  Stops, bind-Stops, checked-Stops, call-Stops, pure-Stops, stop-Stops, run_cases, >>=-elim,
  checked-go, pure-go, stop-go,
}
use authsentinel.Proxy.Engine.{
  Engine, Plugin, input_of, or_denied, or_next, run_plugins, or_policy, authenticated, respond,
  count_decision, handle_flow, handle,
}
use authsentinel.Proxy.Types.{Request, Response, Decision}
use authsentinel.Token.Claims.{Principal}

abbrev Denies : Response → Type 0
Denies r = r.allow ≡ false

module _ {E : Type 0} (e : Engine E) (req : Request) where
  -- The decision that counts, by the order of the plugins, from a state on.
  pub data Chosen (principal : Option Principal) (d : Decision)
      : List (Option (Plugin E)) → E → Type 0 where
    by_policy :
        {s s' : E}
        → e.policy (input_of req principal) s ≡ (ok (some d), s')
        → Chosen principal d [] s
    skipped :
        {ps : List (Option (Plugin E))} {s : E}
        → Chosen principal d ps s
        → Chosen principal d (none ∷ ps) s
    passed :
        {p : Plugin E} {ps : List (Option (Plugin E))} {s s₁ : E}
        → p req principal s ≡ (ok none, s₁)
        → Chosen principal d ps s₁
        → Chosen principal d (some p ∷ ps) s
    decided :
        {p : Plugin E} {ps : List (Option (Plugin E))} {s s₁ : E}
        → p req principal s ≡ (ok (some d), s₁)
        → Chosen principal d (some p ∷ ps) s

  pub record Allowed (s : E) (resp : Response) : Type 0 where
    pub principal : Option Principal
    pub resolved_at : E
    pub decision : Decision
    pub resolved : e.resolver req s ≡ (ok principal, resolved_at)
    pub present : (e.require_auth ≡ false) ⊎ ((p : Principal) × (principal ≡ some p))
    pub chosen : Chosen principal decision e.plugins resolved_at
    pub allows : decision.allow ≡ true
    pub answer : resp ≡ respond e req decision principal

  run_plugins-Stops :
      (principal : Option Principal) (ps : List (Option (Plugin E)))
      → Stops Denies (run_plugins e req principal ps)
  unfolding run_plugins
  run_plugins-Stops principal [] = pure-Stops Denies _
  run_plugins-Stops principal (none ∷ ps) = run_plugins-Stops principal ps
  run_plugins-Stops principal (some p ∷ ps) =
      bind-Stops Denies (checked-Stops Denies _ _ (λ _. refl))
        (rest (run_plugins-Stops principal ps))
    where
      rest :
          Stops Denies (run_plugins e req principal ps)
          → (o : Option Decision) → Stops Denies (or_next e req (run_plugins e req principal ps) o)
      rest ih none = ih
      rest ih (some d) = pure-Stops Denies _

  or_policy-Stops :
      (principal : Option Principal) (o : Option Decision)
      → Stops Denies (or_policy e req principal o)
  unfolding or_policy
  or_policy-Stops principal none =
      bind-Stops Denies (checked-Stops Denies _ _ (λ _. refl)) (λ _. pure-Stops Denies _)
  or_policy-Stops principal (some d) = pure-Stops Denies _

  authenticated-cases :
      (principal : Option Principal) (s : E) {u : Unit {0}} {s' : E}
      → authenticated e req principal s ≡ (go u, s')
      → ((e.require_auth ≡ false) ⊎ ((p : Principal) × (principal ≡ some p))) × (s ≡ s')
  unfolding authenticated
  authenticated-cases (some p) s h = (inr (p, refl), (pure-go tt s h).1)
  authenticated-cases none s h = elim (Bool-cases e.require_auth) [
    | inl required ↦ absurd (stop-go _ s (rw required at h))
    | inr free ↦ (inl free, (pure-go tt s (rw free at h)).1)
  ]

  authenticated-Stops :
      (principal : Option Principal) → Stops Denies (authenticated e req principal)
  unfolding authenticated
  authenticated-Stops (some p) = pure-Stops Denies _
  authenticated-Stops none = elim (Bool-cases e.require_auth) [
    | inl required ↦ rw required (stop-Stops Denies _ refl)
    | inr free ↦ rw free (pure-Stops Denies _)
  ]

  or_policy-Chosen :
      (principal : Option Principal) (s : E) {d : Decision} {s' : E}
      → or_policy e req principal none s ≡ (go d, s')
      → d.allow ≡ true
      → Chosen principal d [] s
  unfolding or_policy
  or_policy-Chosen principal s {d} h allow =
      >>=-elim _ _ s h λ o s₁ first next. pick o s₁ (checked-go _ _ s first) (pure-go _ s₁ next).0
    where
      pick :
          (o : Option Decision) (s₁ : E)
          → e.policy (input_of req principal) s ≡ (ok o, s₁)
          → or_denied o ≡ d
          → Chosen principal d [] s
      pick none s₁ first same = absurd (ground arith)
      pick (some c) s₁ first same =
          by_policy (first ∙ ap (λ (x : Decision). (ok (some x), s₁)) same)

  decided-eq :
      (principal : Option Principal) (c : Decision) (o : Option Decision) (s₂ s₁ : E) {d : Decision}
      {s' : E}
      → or_next e req (run_plugins e req principal []) (some c) s₂ ≡ (go o, s₁)
      → or_policy e req principal o s₁ ≡ (go d, s')
      → c ≡ d
  unfolding or_next or_policy
  decided-eq principal c none s₂ s₁ h k = absurd (none-ne-some c (sym (pure-go _ s₂ h).0))
  decided-eq principal c (some x) s₂ s₁ h k =
      some-injective c x (pure-go _ s₂ h).0 ∙ (pure-go _ s₁ k).0

  -- The plugins and then the policy, as one step.
  run_plugins-Chosen :
      (principal : Option Principal) (ps : List (Option (Plugin E))) (s : E) {o : Option Decision}
      {s₁ : E} {d : Decision} {s' : E}
      → run_plugins e req principal ps s ≡ (go o, s₁)
      → or_policy e req principal o s₁ ≡ (go d, s')
      → d.allow ≡ true
      → Chosen principal d ps s
  unfolding run_plugins
  run_plugins-Chosen principal [] s {d = d} {s' = s'} h k allow =
      let (none_made, same) = pure-go none s h in
      or_policy-Chosen principal s {s' = s'} (rw (none_made, same) k) allow
  run_plugins-Chosen principal (none ∷ ps) s h k allow =
      skipped (run_plugins-Chosen principal ps s h k allow)
  run_plugins-Chosen principal (some p ∷ ps) s {o} {s₁} {d} {s'} h k allow =
      >>=-elim _ _ s h λ made s₂ first next.
        pick made s₂ (checked-go _ (p req principal) s first) next
          (λ later. run_plugins-Chosen principal ps s₂ later k allow)
    where
      pick :
          (made : Option Decision) (s₂ : E)
          → p req principal s ≡ (ok made, s₂)
          → or_next e req (run_plugins e req principal ps) made s₂ ≡ (go o, s₁)
          → (run_plugins e req principal ps s₂ ≡ (go o, s₁) → Chosen principal d ps s₂)
          → Chosen principal d (some p ∷ ps) s
      pick none s₂ first next ih = passed first (ih next)
      pick (some c) s₂ first next ih =
          decided (
            first
            ∙ ap (λ (x : Decision). (ok (some x), s₂)) (decided-eq principal c o s₂ s₁ next k))

  count-eq :
      (m : Option (Bool → ℤ → E → Unit {0} × E)) (r : Response) (s : E) {r' : Response} {s' : E}
      → count_decision e req m r s ≡ (go r', s')
      → r ≡ r'
  unfolding count_decision
  count-eq none r s h = (pure-go r s h).0
  count-eq (some metrics) r s h = >>=-elim _ _ s h λ _ s₁ _ next. (pure-go r s₁ next).0

  count-Stops :
      (m : Option (Bool → ℤ → E → Unit {0} × E)) (r : Response)
      → Stops Denies (count_decision e req m r)
  unfolding count_decision
  count-Stops none r = pure-Stops Denies _
  count-Stops (some metrics) r = bind-Stops Denies (call-Stops Denies _) (λ _. pure-Stops Denies _)

  handle_flow-Stops : Stops Denies (handle_flow e req)
  unfolding handle_flow
  handle_flow-Stops = bind-Stops Denies (checked-Stops Denies _ _ (λ _. refl)) λ principal.
      bind-Stops Denies (authenticated-Stops principal) λ _.
        bind-Stops Denies (run_plugins-Stops principal e.plugins) λ made.
          bind-Stops Denies (or_policy-Stops principal made) λ decision. count-Stops e.metrics _

  handle_flow-Allowed :
      (s : E) {resp : Response} {s' : E}
      → handle_flow e req s ≡ (go resp, s')
      → resp.allow ≡ true
      → Allowed s resp
  unfolding handle_flow respond
  handle_flow-Allowed s h allow = >>=-elim _ _ s h λ principal s₁ first h₁.
      >>=-elim _ _ s₁ h₁ λ u s₂ second h₂. >>=-elim _ _ s₂ h₂ λ made s₃ third h₃.
        >>=-elim _ _ s₃ h₃ λ decision s₄ fourth last.
          let (present, same) = authenticated-cases principal s₁ second in
          let answer = count-eq e.metrics _ s₄ last in
          let allows : decision.allow ≡ true = ap (λ (r : Response). r.allow) answer ∙ allow in
          record {
            principal = principal;
            resolved_at = s₁;
            decision = decision;
            resolved = checked-go _ (e.resolver req) s first;
            present = present;
            chosen =
                subst (Chosen principal decision e.plugins) (sym same)
                  (run_plugins-Chosen principal e.plugins s₂ third fourth allows);
            allows = allows;
            answer = sym answer;
          }

  -- The engine lets a request through only if the principal was resolved without an error, there is
  -- one where authentication is required, and the first plugin to decide, or else the policy,
  -- decided to allow; every plugin before it was called, in order, and left the decision open. The
  -- response is then the one for this decision and principal.
  pub handle-Allowed :
      (s : E) (resp : Response) (s' : E)
      → handle e req s ≡ (resp, s')
      → resp.allow ≡ true
      → Allowed s resp
  unfolding handle
  handle-Allowed s resp s' h allow = elim (run_cases (handle_flow e req) s h) [
    | inl early ↦ let denied = handle_flow-Stops.holds s _ s' early in absurd (ground arith)
    | inr late ↦ handle_flow-Allowed s late allow
  ]
