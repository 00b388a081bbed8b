-- ===== src/Policy/FailClosed.antt =====
-- What has to be said before the proxy lets a request through, where the policy engine denies by
-- default.
use authsentinel.Base.{
  ◌≡◌, ◌⊎◌, inl, inr, refl, ap, ◌∙◌, Bool, true, false, List, ◌∷◌, Option, none, some, ok,
  ok_injective, Exists,
}
use mathlib.Core.Option.{some-injective}
use authsentinel.Policy.Engines.{PolicyEngine, wasm, rego, Codecs, decision, evaluate}
use authsentinel.Policy.Rego.Grants.{RegoGrants, rego_evaluate-Grants}
use authsentinel.Policy.Wasm.Grants.{WasmGrants, wasm_evaluate-Grants}
use authsentinel.Proxy.Engine.{Engine, Plugin, input_of, handle}
use authsentinel.Proxy.Engine.Allowed.{Chosen, by_policy, skipped, passed, decided, handle-Allowed}
use authsentinel.Proxy.Types.{Request, Response, Decision, Input}
use authsentinel.Token.Claims.{Principal}

abbrev pub fallback_of : {E : Type 0} → PolicyEngine E → Bool
fallback_of (wasm w) = w.fallback_allow
fallback_of (rego r) = r.fallback_allow

module _ {E : Type 0} (codecs : Codecs) where
  -- The loaded policy itself allows.
  abbrev pub Grants : PolicyEngine E → Input → E → Type 0
  Grants (wasm w) input s = WasmGrants codecs.marshal codecs.unmarshal codecs.bytes w input s
  Grants (rego r) input s = RegoGrants codecs.parse_int r input s

  evaluate-Grants :
      (engine : PolicyEngine E) (input : Input) (s : E)
      → fallback_of engine ≡ false
      → (decision codecs engine input s).0.allow ≡ true
      → Grants engine input s
  evaluate-Grants (wasm w) = wasm_evaluate-Grants codecs.marshal codecs.unmarshal codecs.bytes w
  evaluate-Grants (rego r) = rego_evaluate-Grants codecs.parse_int r

  module _ (e : Engine E) (engine : PolicyEngine E) (req : Request) where
    abbrev pub with_policy : Engine E
    with_policy = record e { policy = evaluate codecs engine }

    -- One of the plugins answers with a decision that allows.
    abbrev pub PluginAllows : Option Principal → Option (Plugin E) → Type 0
    PluginAllows principal o =
        (p : Plugin E) × (s : E) × (d : Decision) × (o ≡ some p)
        × ((p req principal s).0 ≡ ok (some d))
        × (d.allow ≡ true)

    Decided : Option Principal → List (Option (Plugin E)) → Type 0
    Decided principal ps =
        Exists (PluginAllows principal) ps ⊎ ((s : E) × Grants engine (input_of req principal) s)

    later-Decided :
        (principal : Option Principal) (o : Option (Plugin E)) (ps : List (Option (Plugin E)))
        → Decided principal ps
        → Decided principal (o ∷ ps)
    unfolding Decided
    later-Decided principal o ps (inl found) = inl (inr found)
    later-Decided principal o ps (inr granted) = inr granted

    evaluated :
        (d : Decision) (input : Input) (s s' : E)
        → evaluate codecs engine input s ≡ (ok (some d), s')
        → (decision codecs engine input s).0 ≡ d
    evaluated d input s s' h = some-injective _ _ (ok_injective (ap (λ x. x.0) h))

    Chosen-Decided :
        {principal : Option Principal} {d : Decision} {ps : List (Option (Plugin E))} {s : E}
        → fallback_of engine ≡ false
        → d.allow ≡ true
        → Chosen with_policy req principal d ps s
        → Decided principal ps
    unfolding Decided
    Chosen-Decided {principal} {d} {s = s} closed allow (by_policy {s' = s'} made) =
        let input = input_of req principal in
        inr (
          s,
          evaluate-Grants engine input s closed
              (ap (λ (x : Decision). x.allow) (evaluated d input s s' made) ∙ allow),
        )
    Chosen-Decided {principal} closed allow (skipped {ps = rest} later) =
        later-Decided principal none rest (Chosen-Decided closed allow later)
    Chosen-Decided {principal} closed allow (passed {p = p} {ps = rest} first later) =
        later-Decided principal (some p) rest (Chosen-Decided closed allow later)
    Chosen-Decided {d = d} {s = s} closed allow (decided {p = p} made) =
        inl (inl (p, s, d, refl, ap (λ x. x.0) made, allow))

    -- Where the policy engine denies by default, a request is let through only if a plugin answers with a
    -- decision that allows, or the loaded policy itself does: a Rego policy with an object whose `allow`
    -- is true, a WASM module whose call with this request and principal succeeds and leaves a decision
    -- that allows where its two results point. A missing policy, a failing evaluation
    -- and an answer that cannot be read let nothing through.
    pub handle-Decided :
        (s : E) (resp : Response) (s' : E)
        → fallback_of engine ≡ false
        → handle with_policy req s ≡ (resp, s')
        → resp.allow ≡ true
        → (principal : Option Principal) × (Exists (PluginAllows principal) e.plugins
            ⊎ ((at : E) × Grants engine (input_of req principal) at))
    unfolding Decided
    handle-Decided s resp s' closed h allow =
        let a = handle-Allowed with_policy req s resp s' h allow in
        (a.principal, Chosen-Decided closed a.allows a.chosen)
