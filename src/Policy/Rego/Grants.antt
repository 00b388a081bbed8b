-- ===== src/Policy/Rego/Grants.antt =====
-- When a Rego engine that denies by default allows.
use authsentinel.Base.{
  ◌≡◌, refl, sym, ◌∙◌, true, false, String, List, [], ◌∷◌, Option, none, some, Result, ok, err, ℤ,
  arith,
}
use authsentinel.Policy.Fallback.{fallback_decision}
use authsentinel.Policy.Rego.{
  RegoEngine, Query, rego_evaluate, evaluate_by, decided, decision_from_any, with_allow,
  with_status, with_reason, with_headers, with_obligations, as_int,
}
use authsentinel.Proxy.Types.{Decision, Input}
use authsentinel.Value.{
  Value, Fields, null, bool, float, int, number, str, strs, arr, obj, get, entries,
}

with_obligations-allow : (o : Option Value) (d : Decision) → (with_obligations o d).allow ≡ d.allow
with_obligations-allow o d = ground arith

with_headers-allow : (o : Option Value) (d : Decision) → (with_headers o d).allow ≡ d.allow
with_headers-allow o d = ground arith

with_reason-allow : (o : Option Value) (d : Decision) → (with_reason o d).allow ≡ d.allow
with_reason-allow o d = ground arith

with_status-allow : (o : Option ℤ) (d : Decision) → (with_status o d).allow ≡ d.allow
with_status-allow o d = ground arith

with_allow-true :
    (o : Option Value) (d : Decision)
    → d.allow ≡ false
    → (with_allow o d).allow ≡ true
    → o ≡ some (bool true)
with_allow-true o d closed h = ground (arith, closed, h)

module _ {E : Type 0} (parse_int : String → Result ℤ) (r : RegoEngine E) where
  -- The loaded policy answers with an object that allows.
  abbrev pub RegoGrants : Input → E → Type 0
  RegoGrants input e =
      (query : Query E) × (fs : Fields) × (others : List Value) × (more : List (List Value))
      × (r.prepared ≡ some query)
      × ((query input e).0 ≡ ok ((obj fs ∷ others) ∷ more))
      × (get "allow" (some (entries fs)) ≡ some (bool true))

  decided-Grants :
      (answer : Result (List (List Value)))
      → r.fallback_allow ≡ false
      → (decided parse_int r answer).allow ≡ true
      → (fs : Fields) × (others : List Value) × (more : List (List Value)) × (answer
          ≡ ok ((obj fs ∷ others) ∷ more))
        × (get "allow" (some (entries fs)) ≡ some (bool true))
  unfolding decision_from_any
  decided-Grants (ok ((null ∷ vs) ∷ more)) closed h = absurd (ground (arith, closed, h))
  decided-Grants (ok (((bool b) ∷ vs) ∷ more)) closed h = absurd (ground (arith, closed, h))
  decided-Grants (ok (((float f) ∷ vs) ∷ more)) closed h = absurd (ground (arith, closed, h))
  decided-Grants (ok (((int n) ∷ vs) ∷ more)) closed h = absurd (ground (arith, closed, h))
  decided-Grants (ok (((number x) ∷ vs) ∷ more)) closed h = absurd (ground (arith, closed, h))
  decided-Grants (ok (((str s) ∷ vs) ∷ more)) closed h = absurd (ground (arith, closed, h))
  decided-Grants (ok (((strs xs) ∷ vs) ∷ more)) closed h = absurd (ground (arith, closed, h))
  decided-Grants (ok (((arr xs) ∷ vs) ∷ more)) closed h = absurd (ground (arith, closed, h))
  decided-Grants (ok ((obj fs ∷ vs) ∷ more)) closed h =
      let m = some (entries fs) in
      let base = fallback_decision r.fallback_allow in
      let d₁ = with_allow (get "allow" m) base in
      let d₂ = with_status (as_int parse_int (get "status_code" m)) d₁ in
      let d₃ = with_reason (get "reason" m) d₂ in
      let d₄ = with_headers (get "headers" m) d₃ in
      let same =
        with_obligations-allow (get "obligations" m) d₄
        ∙ with_headers-allow (get "headers" m) d₃
        ∙ with_reason-allow (get "reason" m) d₂
        ∙ with_status-allow (as_int parse_int (get "status_code" m)) d₁ in
      (fs, vs, more, refl, with_allow-true (get "allow" m) base (rw closed refl) (sym same ∙ h))
  decided-Grants (ok ([] ∷ more)) closed h = absurd (ground (arith, closed, h))
  decided-Grants (ok []) closed h = absurd (ground (arith, closed, h))
  decided-Grants (err e) closed h = absurd (ground (arith, closed, h))

  evaluate_by-Grants :
      (o : Option (Query E)) (input : Input) (e : E)
      → r.prepared ≡ o
      → r.fallback_allow ≡ false
      → (evaluate_by parse_int r o input e).0.allow ≡ true
      → RegoGrants input e
  evaluate_by-Grants none input e given closed h = absurd (ground (arith, closed, h))
  evaluate_by-Grants (some query) input e given closed h =
      let (fs, others, more, said, allows) = decided-Grants (query input e).0 closed h in
      (query, fs, others, more, given, said, allows)

  pub rego_evaluate-Grants :
      (input : Input) (e : E)
      → r.fallback_allow ≡ false
      → (rego_evaluate parse_int r input e).0.allow ≡ true
      → RegoGrants input e
  unfolding rego_evaluate
  rego_evaluate-Grants input e closed h = evaluate_by-Grants r.prepared input e refl closed h
