-- ===== src/Agent/Flow.antt =====
-- Handlers as state passing with early return. A step either goes on with a value or makes the
-- handler return; the state is the store and, beside it, everything outside the process.
pub mod Laws
use authsentinel.Base.{String, Result, ok, err}

pub record World (S X : Type 0) : Type 0 where
  pub store : S
  pub env : X

pub data Flow (R A : Type 0) : Type 0 where
  ret : R → Flow R A
  go : A → Flow R A

abbrev pub M : Type 0 → Type 0 → Type 0 → Type 0
M W R A = W → Flow R A × W

unfoldable pub continue : {W R A B : Type 0} → (A → M W R B) → Flow R A × W → Flow R B × W
continue f (ret r, w) = (ret r, w)
continue f (go a, w) = f a w

infixl 5 ◌>>=◌ ◌>>◌
unfoldable pub ◌>>=◌ : {W R A B : Type 0} → M W R A → (A → M W R B) → M W R B
unfolding continue
◌>>=◌ m f w = continue f (m w)

unfoldable pub ◌>>◌ : {W R B : Type 0} → M W R (Unit {0}) → M W R B → M W R B
unfolding ◌>>=◌
m >> k = m >>= λ _. k

unfoldable pub pure : {W R A : Type 0} → A → M W R A
pure a w = (go a, w)

unfoldable pub stop : {W R A : Type 0} → R → M W R A
stop r w = (ret r, w)

abbrev decide_result : {R A : Type 0} → (String → R) → Result A → Flow R A
decide_result on_err (ok a) = go a
decide_result on_err (err e) = ret (on_err e)

-- A call whose error makes the handler return.
unfoldable pub checked : {W R A : Type 0} → (String → R) → (W → Result A × W) → M W R A
checked on_err call w = let (r, w') = call w in (decide_result on_err r, w')

-- A call whose result is used as it is.
unfoldable pub call : {W R A : Type 0} → (W → A × W) → M W R A
call f w = let (a, w') = f w in (go a, w')

-- What the handler returns.
abbrev pub finish : {R : Type 0} → Flow R R → R
finish (ret r) = r
finish (go r) = r

-- `defer`: the clean-up runs whether the body returns early or not.
unfoldable pub deferred : {W R A : Type 0} → (W → W) → M W R A → M W R A
deferred cleanup body w = let (r, w') = body w in (r, cleanup w')

unfoldable pub run : {W R : Type 0} → M W R R → W → R × W
unfolding ◌>>=◌ ◌>>◌ pure stop checked call deferred
run m w = let (r, w') = m w in (finish r, w')

module _ {S X : Type 0} where
  abbrev pub on_store : {A : Type 0} → (S → A × S) → World S X → A × World S X
  on_store f w = let (a, s) = f w.store in (a, record w { store = s })

  abbrev pub on_env : {A : Type 0} → (X → A × X) → World S X → A × World S X
  on_env f w = let (a, x) = f w.env in (a, record w { env = x })
