-- ===== src/Agent/Flow/Laws.antt =====
-- Reading a handler backwards from what it returned.
use authsentinel.Base.{◌≡◌, ◌⊎◌, refl, subst, Result, ok, err, String, arith}
use authsentinel.Agent.Flow.{
  World, Flow, ret, go, M, ◌>>=◌, continue, checked, call, pure, stop, run, deferred, on_store,
  on_env,
}

module _ {W R : Type 0} where
  continue-go :
      {A B : Type 0} (f : A → M W R B) (o : Flow R A × W) {b : B} {w' : W}
      → continue f o ≡ (go b, w')
      → (a : A) × (w₁ : W) × (o ≡ (go a, w₁)) × (f a w₁ ≡ (go b, w'))
  unfolding continue
  continue-go f (ret r, w) h = absurd (ground arith)
  continue-go f (go a, w) h = (a, w, refl, h)

  -- A chain that goes on to its end did so at its first step.
  pub >>=-go :
      {A B : Type 0} (m : M W R A) (f : A → M W R B) (w : W) {b : B} {w' : W}
      → (m >>= f) w ≡ (go b, w')
      → (a : A) × (w₁ : W) × (m w ≡ (go a, w₁)) × (f a w₁ ≡ (go b, w'))
  unfolding ◌>>=◌
  >>=-go m f w h = continue-go f (m w) h

  pub checked-go :
      {A : Type 0} (on_err : String → R) (f : W → Result A × W) (w : W) {a : A} {w' : W}
      → checked on_err f w ≡ (go a, w')
      → f w ≡ (ok a, w')
  unfolding checked
  checked-go on_err f w h = ground arith

  pub call-go :
      {A : Type 0} (f : W → A × W) (w : W) {a : A} {w' : W}
      → call {R = R} f w ≡ (go a, w')
      → f w ≡ (a, w')
  unfolding call
  call-go f w h = ground arith

  pub pure-go :
      {A : Type 0} (a : A) (w : W) {b : A} {w' : W}
      → pure {R = R} a w ≡ (go b, w')
      → (a ≡ b) × (w ≡ w')
  unfolding pure
  pure-go a w h = ground arith

  pub stop-go : {A : Type 0} (r : R) (w : W) {b : A} {w' : W} → stop r w ≡ (go b, w') → ⊥
  unfolding stop
  stop-go r w h = ground arith

  pub deferred-go :
      {A : Type 0} (cleanup : W → W) (m : M W R A) (w : W) {a : A} {w' : W}
      → deferred cleanup m w ≡ (go a, w')
      → (w₁ : W) × (m w ≡ (go a, w₁)) × (cleanup w₁ ≡ w')
  unfolding deferred
  deferred-go cleanup m w h = ((m w).1, ground arith, ground arith)

  -- Whatever a step returns early satisfies `P`.
  pub record Stops {ℓ} {A : Type 0} (P : R → Type ℓ) (m : M W R A) : Type ℓ where
    pub holds : (w : W) (r : R) (w' : W) → m w ≡ (ret r, w') → P r

module _ {ℓ} {W R : Type 0} (P : R → Type ℓ) where
  continue-ret :
      {A B : Type 0} (f : A → M W R B) (o : Flow R A × W) (r : R) (w' : W)
      → ((r₁ : R) (w₁ : W) → o ≡ (ret r₁, w₁) → P r₁)
      → ((a : A) → Stops P (f a))
      → continue f o ≡ (ret r, w')
      → P r
  unfolding continue
  continue-ret f (ret r₁, w) r w' hm hf e = hm r w' (ground arith)
  continue-ret f (go a, w) r w' hm hf e = (hf a).holds w r w' e

  pub bind-Stops :
      {A B : Type 0} {m : M W R A} {f : A → M W R B}
      → Stops P m
      → ((a : A) → Stops P (f a))
      → Stops P (m >>= f)
  unfolding ◌>>=◌
  bind-Stops {m = m} {f = f} hm hf = record {
    holds = λ w r w' e. continue-ret f (m w) r w' (hm.holds w) hf e;
  }

  checked-ret :
      {A : Type 0} (on_err : String → R) (f : W → Result A × W) (w : W) (r : R) (w' : W)
      → checked on_err f w ≡ (ret r, w')
      → (m : String) × (on_err m ≡ r)
  unfolding checked
  checked-ret {A} on_err f w r w' e = go_on (f w) refl
    where
      go_on : (o : Result A × W) → f w ≡ o → (m : String) × (on_err m ≡ r)
      go_on (ok a, w₁) k = absurd (ground arith)
      go_on (err m, w₁) k = (m, ground arith)

  pub checked-Stops :
      {A : Type 0} (on_err : String → R) (f : W → Result A × W)
      → ((e : String) → P (on_err e))
      → Stops P (checked on_err f)
  checked-Stops on_err f h = record {
    holds = λ w r w' e. let (m, same) = checked-ret on_err f w r w' e in subst P same (h m);
  }

  pub deferred-Stops :
      {A : Type 0} {m : M W R A} (cleanup : W → W) → Stops P m → Stops P (deferred cleanup m)
  unfolding deferred
  deferred-Stops {m = m} cleanup h = record {
    holds = λ w r w' e. h.holds w r (m w).1 (ground arith);
  }

  pub call-Stops : {A : Type 0} (f : W → A × W) → Stops P (call f)
  unfolding call
  call-Stops f = record { holds = λ w r w' e. absurd (ground arith) }

  pub pure-Stops : {A : Type 0} (a : A) → Stops P (pure {W = W} {R = R} a)
  unfolding pure
  pure-Stops a = record { holds = λ w r w' e. absurd (ground arith) }

  pub stop-Stops : {A : Type 0} (r : R) → P r → Stops {A = A} P (stop {W = W} r)
  unfolding stop
  stop-Stops r h = record {
    holds = λ w r' w' e. let same : r ≡ r' = ground arith in subst P same h;
  }

module _ {S X : Type 0} where
  pub on_store-eq :
      {A : Type 0} (f : S → A × S) (w : World S X) {a : A} {w' : World S X}
      → on_store f w ≡ (a, w')
      → (f w.store ≡ (a, w'.store)) × (w'.env ≡ w.env)
  on_store-eq f w h = ground arith

  pub on_env-eq :
      {A : Type 0} (f : X → A × X) (w : World S X) {a : A} {w' : World S X}
      → on_env f w ≡ (a, w')
      → (f w.env ≡ (a, w'.env)) × (w'.store ≡ w.store)
  on_env-eq f w h = ground arith

module _ {W R : Type 0} where
  -- What a handler returned, it returned early or at its end.
  pub run_cases :
      (m : M W R R) (w : W) {r : R} {w' : W}
      → run m w ≡ (r, w')
      → (m w ≡ (ret r, w')) ⊎ (m w ≡ (go r, w'))
  unfolding run
  run_cases m w h = ground arith

module _ {R S X : Type 0} where
  pub checked_store-go :
      {A : Type 0} (on_err : String → R) (f : S → Result A × S) (w : World S X) {a : A}
      {w' : World S X}
      → checked on_err (on_store f) w ≡ (go a, w')
      → f w.store ≡ (ok a, w'.store)
  checked_store-go on_err f w h = (on_store-eq f w (checked-go on_err (on_store f) w h)).0

  pub checked_env-go :
      {A : Type 0} (on_err : String → R) (f : X → Result A × X) (w : World S X) {a : A}
      {w' : World S X}
      → checked on_err (on_env f) w ≡ (go a, w')
      → f w.env ≡ (ok a, w'.env)
  checked_env-go on_err f w h = (on_env-eq f w (checked-go on_err (on_env f) w h)).0

module _ {ℓ} {W R : Type 0} {T : Type ℓ} where
  -- `>>=-go` in the form of a case split.
  pub >>=-elim :
      {A B : Type 0} (m : M W R A) (f : A → M W R B) (w : W) {b : B} {w' : W}
      → (m >>= f) w ≡ (go b, w')
      → ((a : A) (w₁ : W) → m w ≡ (go a, w₁) → f a w₁ ≡ (go b, w') → T)
      → T
  >>=-elim m f w h k = let (a, w₁, first, next) = >>=-go m f w h in k a w₁ first next
