-- ===== src/Proxy/RateLimit/Bounds.antt =====
-- How many requests a limiter lets through.
use authsentinel.Base.{
  ◌≡◌, ◌≤◌, ℕ, suc, ◌+◌, ◌-◌, ◌*◌, Bool, true, false, String, List, [], ◌∷◌, Option, none, some,
  arith, Dict, lookup, lookup-insert, insert, if◌then◌else◌, ◌==◌, eq_iff, ◌&&◌, Bool-cases, inl,
  inr, ap, sym, subst, Result, ok,
}
use authsentinel.Proxy.RateLimit.{
  Config, Bucket, token, capacity, min, refill, take, handle, derive_key, limited,
}
use authsentinel.Proxy.Types.{Request, Decision}
use authsentinel.Token.Claims.{Principal}

-- What a bucket can hand out at a time: its tokens and those that it is owed since its last use, up to
-- the capacity.
abbrev budget : Config → ℕ → Option Bucket → ℕ
budget cfg now none = capacity cfg
budget cfg now (some b) = min (capacity cfg) (b.tokens + (now - b.last) * cfg.requests_per_minute)

abbrev spent : Bool → ℕ
spent true = token
spent false = 0

-- A bucket was last used by then and is not over its capacity.
abbrev UsedBy : Config → ℕ → Option Bucket → Type 0
UsedBy cfg now none = Unit
UsedBy cfg now (some b) = (b.last ≤ now) × (b.tokens ≤ capacity cfg)

take-budget :
    (cfg : Config) (now : ℕ) (found : Option Bucket)
    → UsedBy cfg now found
    → (take cfg now found).1.tokens + spent (take cfg now found).0 ≤ budget cfg now found
unfolding take refill
take-budget cfg now none h = ground arith
take-budget cfg now (some b) h = ground arith

taken-full :
    (cfg : Config) (now : ℕ) (found : Option Bucket)
    → UsedBy cfg now found
    → (take cfg now found).1.tokens ≤ capacity cfg
unfolding take refill
taken-full cfg now none h = ground arith
taken-full cfg now (some b) h = ground arith

pub take-last : (cfg : Config) (now : ℕ) (found : Option Bucket) → (take cfg now found).1.last ≡ now
unfolding take
take-last cfg now found = ground arith

-- A bucket taken from at one time can hand out less by what was taken.
taken-budget :
    (cfg : Config) (now : ℕ) (found : Option Bucket)
    → UsedBy cfg now found
    → budget cfg now (some (take cfg now found).1) + spent (take cfg now found).0
      ≤ budget cfg now found
taken-budget cfg now found u =
    let none_owed : now - now ≡ 0 = omega arith in
    rw (take-last cfg now found, none_owed)
      (ground (arith, take-budget cfg now found u, taken-full cfg now found u))

UsedBy-later :
    (cfg : Config) (start now : ℕ) (found : Option Bucket)
    → start ≤ now
    → UsedBy cfg start found
    → UsedBy cfg now found
UsedBy-later cfg start now none le u = tt
UsedBy-later cfg start now (some b) le (last, full) = (omega arith, full)

mul-sub_split : (a b c r : ℕ) → a ≤ b → b ≤ c → (c - a) * r ≡ (b - a) * r + (c - b) * r
mul-sub_split a b c r le le' =
    let parts : c - a ≡ (b - a) + (c - b) = omega arith in rw parts (omega arith)

min-later :
    (cap x y all first rest : ℕ)
    → all ≡ first + rest
    → y ≡ x + first
    → min cap y + rest ≤ min cap x + all
min-later cap x y all first rest e e' = ground arith

-- Waiting adds the rate times the wait.
budget-later :
    (cfg : Config) (start now stop : ℕ) (found : Option Bucket)
    → start ≤ now
    → now ≤ stop
    → UsedBy cfg start found
    → budget cfg now found + (stop - now) * cfg.requests_per_minute
      ≤ budget cfg start found + (stop - start) * cfg.requests_per_minute
budget-later cfg start now stop none le le' u =
    omega (arith, mul-sub_split start now stop cfg.requests_per_minute le le')
budget-later cfg start now stop (some b) le le' (last, full) =
    min-later (capacity cfg) (b.tokens + (start - b.last) * cfg.requests_per_minute)
      (b.tokens + (now - b.last) * cfg.requests_per_minute)
      ((stop - start) * cfg.requests_per_minute) ((now - start) * cfg.requests_per_minute)
      ((stop - now) * cfg.requests_per_minute)
      (mul-sub_split start now stop cfg.requests_per_minute le le')
      (omega (arith, mul-sub_split b.last start now cfg.requests_per_minute last le))

pub record Arrival : Type 0 where
  pub request : Request
  pub principal : Option Principal
  pub time : ℕ

-- The times of a sequence of requests do not go back, from `start` to `stop`.
abbrev pub Ordered : ℕ → ℕ → List Arrival → Type 0
Ordered start stop [] = start ≤ stop
Ordered start stop (a ∷ more) = (start ≤ a.time) × Ordered a.time stop more

Ordered-le : (start stop : ℕ) (arrivals : List Arrival) → Ordered start stop arrivals → start ≤ stop
Ordered-le start stop [] o = o
Ordered-le start stop (a ∷ more) o = omega (arith, Ordered-le a.time stop more o.1)

abbrev pub let_through : Result (Option Decision) → Bool
let_through (ok none) = true
let_through _ = false

taken-used :
    (cfg : Config) (now : ℕ) (found : Option Bucket)
    → UsedBy cfg now found
    → UsedBy cfg now (some (take cfg now found).1)
taken-used cfg now found u = (omega (arith, take-last cfg now found), taken-full cfg now found u)

chain-≤ :
    (counted rest used after before wait bound : ℕ)
    → counted ≡ used + rest
    → rest ≤ after + wait
    → after + used ≤ before
    → before + wait ≤ bound
    → counted ≤ bound
chain-≤ counted rest used after before wait bound e r s t = omega arith

counted-true :
    (n : ℕ) (b : Bool)
    → (if true && let_through (ok (limited b)) then suc n else n) * token ≡ spent b + n * token
counted-true n true = omega arith
counted-true n false = omega arith

counted-false :
    (n : ℕ) (b : Bool)
    → (if false && let_through (ok (limited b)) then suc n else n) * token ≡ 0 + n * token
counted-false n b = omega arith

module _ (parse_ip : String → Option String) (cfg : Config) where
  -- The number of requests with a key that a limiter lets through.
  unfoldable pub admitted : String → Dict Bucket → List Arrival → ℕ
  admitted k buckets [] = 0
  admitted k buckets (a ∷ more) =
      let step = handle parse_ip cfg a.request a.principal a.time buckets in
      let rest = admitted k step.1 more in
      if derive_key parse_ip cfg a.request a.principal == k && let_through step.0
      then suc rest
      else rest

  admitted-budget :
      (k : String) (buckets : Dict Bucket) (start stop : ℕ) (arrivals : List Arrival)
      → UsedBy cfg start (lookup k buckets)
      → Ordered start stop arrivals
      → admitted k buckets arrivals * token
        ≤ budget cfg start (lookup k buckets) + (stop - start) * cfg.requests_per_minute
  unfolding admitted handle
  admitted-budget k buckets start stop [] u o = omega arith
  admitted-budget k buckets start stop (a ∷ more) u o =
      let key = derive_key parse_ip cfg a.request a.principal in
      let taken = take cfg a.time (lookup key buckets) in
      let le = Ordered-le a.time stop more o.1 in
      let after = insert key taken.1 buckets in
      let rest = admitted k after more in
      let wait = (stop - a.time) * cfg.requests_per_minute in
      let before = budget cfg a.time (lookup k buckets) in
      let bound = budget cfg start (lookup k buckets) + (stop - start) * cfg.requests_per_minute in
      let used = UsedBy-later cfg start a.time (lookup k buckets) o.0 u in
      let later : before + wait ≤ bound =
        budget-later cfg start a.time stop (lookup k buckets) o.0 le u in
      elim (Bool-cases (key == k)) [
        | inl same ↦
            let found : lookup key buckets ≡ lookup k buckets =
              ap (λ x. lookup x buckets) ((eq_iff key k).0 same) in
            let stored : some taken.1 ≡ lookup k after =
              ground (arith, lookup-insert key k taken.1 buckets, same) in
            let count : admitted k buckets (a ∷ more) * token ≡ spent taken.0 + rest * token =
              rw same (counted-true rest taken.0) in
            let before_used = subst (UsedBy cfg a.time) (sym found) used in
            let used' =
              subst (UsedBy cfg a.time) stored
                (taken-used cfg a.time (lookup key buckets) before_used) in
            let ih = admitted-budget k after a.time stop more used' o.1 in
            let ih' : rest * token ≤ budget cfg a.time (some taken.1) + wait =
              subst (λ b. rest * token ≤ budget cfg a.time b + wait) (sym stored) ih in
            let less : budget cfg a.time (some taken.1) + spent taken.0 ≤ before =
              subst (λ b. budget cfg a.time (some taken.1) + spent taken.0 ≤ budget cfg a.time b)
                found (taken-budget cfg a.time (lookup key buckets) before_used) in
            chain-≤ _ (rest * token) (spent taken.0) (budget cfg a.time (some taken.1)) before wait
              bound count ih' less later
        | inr other ↦
            let stored : lookup k buckets ≡ lookup k after =
              ground (arith, lookup-insert key k taken.1 buckets, other) in
            let count : admitted k buckets (a ∷ more) * token ≡ 0 + rest * token =
              rw other (counted-false rest taken.0) in
            let ih =
              admitted-budget k after a.time stop more (subst (UsedBy cfg a.time) stored used)
                o.1 in
            let ih' : rest * token ≤ before + wait =
              subst (λ b. rest * token ≤ budget cfg a.time b + wait) (sym stored) ih in
            chain-≤ _ (rest * token) 0 before before wait bound count ih' (omega arith) later
      ]

  -- The limiter after a sequence of requests
  unfoldable pub after : Dict Bucket → List Arrival → Dict Bucket
  after buckets [] = buckets
  after buckets (a ∷ more) = after (handle parse_ip cfg a.request a.principal a.time buckets).1 more

  budget-full : (now : ℕ) (found : Option Bucket) → budget cfg now found ≤ capacity cfg
  budget-full now none = omega arith
  budget-full now (some b) = ground arith

  after-used :
      (k : String) (buckets : Dict Bucket) (start stop : ℕ) (arrivals : List Arrival)
      → UsedBy cfg start (lookup k buckets)
      → Ordered start stop arrivals
      → UsedBy cfg stop (lookup k (after buckets arrivals))
  unfolding after handle
  after-used k buckets start stop [] u o = UsedBy-later cfg start stop (lookup k buckets) o u
  after-used k buckets start stop (a ∷ more) u o =
      let key = derive_key parse_ip cfg a.request a.principal in
      let taken = take cfg a.time (lookup key buckets) in
      let used = UsedBy-later cfg start a.time (lookup k buckets) o.0 u in
      elim (Bool-cases (key == k)) [
        | inl same ↦
            let found : lookup key buckets ≡ lookup k buckets =
              ap (λ x. lookup x buckets) ((eq_iff key k).0 same) in
            let stored : some taken.1 ≡ lookup k (insert key taken.1 buckets) =
              ground (arith, lookup-insert key k taken.1 buckets, same) in
            after-used k (insert key taken.1 buckets) a.time stop more
              (subst (UsedBy cfg a.time) stored (
                taken-used cfg a.time (lookup key buckets)
                  (subst (UsedBy cfg a.time) (sym found) used)))
              o.1
        | inr other ↦
            let stored : lookup k buckets ≡ lookup k (insert key taken.1 buckets) =
              ground (arith, lookup-insert key k taken.1 buckets, other) in
            after-used k (insert key taken.1 buckets) a.time stop more
              (subst (UsedBy cfg a.time) stored used) o.1
      ]

  -- With tokens as exact numbers: whatever requests a limiter has had since it was fresh, of those that
  -- reach it at times from `start` to `stop`, in order, it lets through at most `burst` with one key
  -- plus `requests_per_minute` for every minute from `start` to `stop`.
  pub admitted-bound :
      (k : String) (first start stop : ℕ) (history arrivals : List Arrival)
      → Ordered first start history
      → Ordered start stop arrivals
      → admitted k (after [] history) arrivals * token
        ≤ cfg.burst * token + (stop - start) * cfg.requests_per_minute
  unfolding lookup
  admitted-bound k first start stop history arrivals past o = omega (
    arith,
    admitted-budget k (after [] history) start stop arrivals
        (after-used k [] first start history tt past) o,
    budget-full start (lookup k (after [] history)),
  )
