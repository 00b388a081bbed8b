-- ===== src/Policy/Wasm/Grants.antt =====
-- When a WASM runtime that denies by default allows.
use authsentinel.Base.{
  ◌≡◌, ◌≢◌, refl, ap, sym, ◌∙◌, ℕ, ◌%◌, ◌^◌, Bool, true, false, String, List, [], ◌∷◌, Option, none,
  some, Result, ok, inl, inr, arith, if◌then◌else◌, eqb,
}
use authsentinel.Agent.Flow.{go, pure, stop}
use authsentinel.Agent.Flow.Laws.{
  Stops, bind-Stops, checked-Stops, call-Stops, pure-Stops, stop-Stops, run_cases, >>=-elim,
  checked-go, call-go, pure-go, stop-go,
}
use authsentinel.Policy.Fallback.{fallback_decision}
use authsentinel.Policy.Wasm.{
  Memory, Module, WasmRuntime, present, two_results, wasm_flow, wasm_evaluate,
}
use authsentinel.Proxy.Types.{Decision, Input}

abbrev Denies : Decision → Type 0
Denies d = d.allow ≡ false

module _ {E : Type 0} (marshal : Input → Result String) (unmarshal : String → Result Decision)
    (bytes : String → ℕ) (w : WasmRuntime E) where
  -- The loaded module is given the input, its call of "evaluate" succeeds with two results, and in the
  -- state that the call leaves they point to a decision that allows.
  pub record WasmGrants (input : Input) (e : E) : Type 0 where
    pub loaded : Module E
    pub mem : Memory E
    pub eval : ℕ → ℕ → E → Result (List ℕ) × E
    pub asked : String
    pub at : ℕ
    pub size : ℕ
    pub given : E
    pub later : E
    pub text : String
    pub decision : Decision
    pub is_loaded : w.loaded_module ≡ some loaded
    pub its_memory : loaded.memory ≡ some mem
    pub its_function : loaded.evaluate ≡ some eval
    pub marshalled : marshal input ≡ ok asked
    pub passed_in : mem.write 0 asked e ≡ (true, given)
    pub evaluated : eval 0 (bytes asked) given ≡ (ok (at ∷ size ∷ []), later)
    pub not_empty : size % 2 ^ 32 ≢ 0
    pub left : (mem.read (at % 2 ^ 32) (size % 2 ^ 32) later).0 ≡ some text
    pub decoded : unmarshal text ≡ ok decision
    pub allows : decision.allow ≡ true

  module _ (closed : w.fallback_allow ≡ false) where
    falls : Denies (fallback_decision w.fallback_allow)
    falls = rw closed refl

    present-Stops : {A : Type 0} (o : Option A) → Stops Denies (present marshal unmarshal bytes w o)
    unfolding present
    present-Stops none = stop-Stops Denies _ falls
    present-Stops (some a) = pure-Stops Denies _

    two_results-Stops : (xs : List ℕ) → Stops Denies (two_results marshal unmarshal bytes w xs)
    unfolding two_results
    two_results-Stops [] = stop-Stops Denies _ falls
    two_results-Stops (a ∷ []) = stop-Stops Denies _ falls
    two_results-Stops (a ∷ b ∷ []) = pure-Stops Denies _
    two_results-Stops (a ∷ b ∷ c ∷ xs) = stop-Stops Denies _ falls

    done-Stops :
        (b : Bool)
        → Stops Denies (
            if b
            then pure {W = E} {R = Decision} (tt {0})
            else stop (fallback_decision w.fallback_allow))
    done-Stops true = pure-Stops Denies _
    done-Stops false = stop-Stops Denies _ falls

    empty-Stops :
        (b : Bool)
        → Stops Denies
            (if b then stop {W = E} (fallback_decision w.fallback_allow) else pure (tt {0}))
    empty-Stops true = stop-Stops Denies _ falls
    empty-Stops false = pure-Stops Denies _

    wasm_flow-Stops : (input : Input) → Stops Denies (wasm_flow marshal unmarshal bytes w input)
    unfolding wasm_flow
    wasm_flow-Stops input = bind-Stops Denies (present-Stops _) λ m.
        bind-Stops Denies (checked-Stops Denies _ _ (λ _. falls)) λ text.
          bind-Stops Denies (present-Stops _) λ mem. bind-Stops Denies (call-Stops Denies _) λ done.
            bind-Stops Denies (done-Stops done) λ _. bind-Stops Denies (present-Stops _) λ eval.
              bind-Stops Denies (checked-Stops Denies _ _ (λ _. falls)) λ results.
                bind-Stops Denies (two_results-Stops results) λ out.
                  bind-Stops Denies (empty-Stops (eqb out.1 0)) λ _.
                    bind-Stops Denies (call-Stops Denies _) λ buffer.
                      bind-Stops Denies (present-Stops buffer)
                        λ text. checked-Stops Denies _ _ (λ _. falls)

  present-go :
      {A : Type 0} (o : Option A) (e : E) {a : A} {e' : E}
      → present marshal unmarshal bytes w o e ≡ (go a, e')
      → (o ≡ some a) × (e ≡ e')
  unfolding present
  present-go none e h = absurd (stop-go _ e h)
  present-go (some a) e h = (ap some (pure-go a e h).0, (pure-go a e h).1)

  done-go :
      (b : Bool) (e : E) {u : Unit {0}} {e' : E}
      → (if b
            then pure {W = E} {R = Decision} (tt {0})
            else stop (fallback_decision w.fallback_allow))
          e
        ≡ (go u, e')
      → (b ≡ true) × (e ≡ e')
  done-go true e h = (refl, (pure-go tt e h).1)
  done-go false e h = absurd (stop-go _ e h)

  empty-go :
      (b : Bool) (e : E) {u : Unit {0}} {e' : E}
      → (if b then stop {W = E} (fallback_decision w.fallback_allow) else pure (tt {0})) e
        ≡ (go u, e')
      → (b ≡ false) × (e ≡ e')
  empty-go true e h = absurd (stop-go _ e h)
  empty-go false e h = (refl, (pure-go tt e h).1)

  two_results-go :
      (xs : List ℕ) (e : E) {out : ℕ × ℕ} {e' : E}
      → two_results marshal unmarshal bytes w xs e ≡ (go out, e')
      → (a : ℕ) × (b : ℕ) × (xs ≡ a ∷ b ∷ []) × (out ≡ (a % 2 ^ 32, b % 2 ^ 32)) × (e ≡ e')
  unfolding two_results
  two_results-go [] e h = absurd (stop-go _ e h)
  two_results-go (a ∷ []) e h = absurd (stop-go _ e h)
  two_results-go (a ∷ b ∷ []) e h = (a, b, refl, sym (pure-go _ e h).0, (pure-go _ e h).1)
  two_results-go (a ∷ b ∷ c ∷ xs) e h = absurd (stop-go _ e h)

  wasm_flow-Grants :
      (input : Input) (e : E) {d : Decision} {e' : E}
      → wasm_flow marshal unmarshal bytes w input e ≡ (go d, e')
      → d.allow ≡ true
      → WasmGrants input e
  unfolding wasm_flow
  wasm_flow-Grants input e {d} h allow = >>=-elim _ _ e h λ m e₁ h₁ k.
      >>=-elim _ _ e₁ k λ text e₂ h₂ k. >>=-elim _ _ e₂ k λ mem e₃ h₃ k.
        >>=-elim _ _ e₃ k λ done e₄ h₄ k. >>=-elim _ _ e₄ k λ u e₅ h₅ k.
          >>=-elim _ _ e₅ k λ eval e₆ h₆ k. >>=-elim _ _ e₆ k λ results e₇ h₇ k.
            >>=-elim _ _ e₇ k λ out e₈ h₈ k. >>=-elim _ _ e₈ k λ v e₉ h₉ k.
              >>=-elim _ _ e₉ k λ buffer e' h' k. >>=-elim _ _ e' k λ answer e'' h'' last.
                let asked = checked-go _ (λ e. (marshal input, e)) e₁ h₂ in
                let wrote = done-go done e₄ h₅ in
                let (a, b, both, words, s₈) = two_results-go results e₇ h₈ in
                let full = empty-go (eqb out.1 0) e₈ h₉ in
                let into : e₃ ≡ e =
                  sym (present-go m.memory e₂ h₃).1
                  ∙ sym (ap (λ x. x.1) asked)
                  ∙ sym (present-go w.loaded_module e h₁).1 in
                let at_call : e₆ ≡ e₄ = sym (present-go m.evaluate e₅ h₆).1 ∙ sym wrote.1 in
                let at_read : e₉ ≡ e₇ = sym full.1 ∙ sym s₈ in
                record {
                  loaded = m;
                  mem = mem;
                  eval = eval;
                  asked = text;
                  at = a;
                  size = b;
                  given = e₄;
                  later = e₇;
                  text = answer;
                  decision = d;
                  is_loaded = (present-go w.loaded_module e h₁).0;
                  its_memory = (present-go m.memory e₂ h₃).0;
                  its_function = (present-go m.evaluate e₅ h₆).0;
                  marshalled = ap (λ x. x.0) asked;
                  passed_in =
                      ap (mem.write 0 text) (sym into)
                      ∙ call-go (mem.write 0 text) e₃ h₄
                      ∙ ap (λ x. (x, e₄)) wrote.0;
                  evaluated =
                      ap (eval 0 (bytes text)) (sym at_call)
                      ∙ checked-go _ (eval 0 (bytes text)) e₆ h₇
                      ∙ ap (λ xs. (ok xs, e₇)) both;
                  not_empty = λ none. ground (arith, none, full.0, ap (λ x. x.1) words);
                  left =
                      ap (λ x. (mem.read x.0 x.1 e₇).0) (sym words)
                      ∙ ap (λ x. (mem.read out.0 out.1 x).0) (sym at_read)
                      ∙ ap (λ x. x.0) (call-go (mem.read out.0 out.1) e₉ h')
                      ∙ (present-go buffer e' h'').0;
                  decoded = ap (λ x. x.0) (checked-go _ (λ x. (unmarshal answer, x)) e'' last);
                  allows = allow;
                }

  pub wasm_evaluate-Grants :
      (input : Input) (e : E)
      → w.fallback_allow ≡ false
      → (wasm_evaluate marshal unmarshal bytes w input e).0.allow ≡ true
      → WasmGrants input e
  unfolding wasm_evaluate
  wasm_evaluate-Grants input e closed allow =
      let flow = wasm_flow marshal unmarshal bytes w input in
      elim (run_cases flow e refl) [
        | inl early ↦
            let denied = (wasm_flow-Stops closed input).holds e _ _ early in
            absurd (ground (arith, denied, allow))
        | inr late ↦ wasm_flow-Grants input e late allow
      ]
