-- ===== src/Proxy/RateLimit/Recovers.antt =====
-- A limiter that has refused a key lets it through again.
use authsentinel.Base.{
  ◌≡◌, refl, ◌≢◌, ◌≤◌, ℕ, ◌-◌, ◌*◌, true, String, List, [], ◌∷◌, Option, some, ok, All, arith, Dict,
  lookup, lookup-insert, lookup-inserted, insert, ==-false, ap, sym, ◌∙◌,
}
use authsentinel.Proxy.RateLimit.{
  Config, Decoded, Bucket, token, configure, refill, take, handle, derive_key,
}
use authsentinel.Proxy.RateLimit.Bounds.{Arrival, let_through, take-last}

configure-burst : (out : Decoded) (cfg : Config) → configure out ≡ ok cfg → 1 ≤ cfg.burst
unfolding configure
configure-burst out cfg h = ground arith

-- A bucket last used so long ago that a token has been refilled has one to give.
take-after_wait :
    (cfg : Config) (now : ℕ) (b : Bucket)
    → 1 ≤ cfg.burst
    → token ≤ (now - b.last) * cfg.requests_per_minute
    → (take cfg now (some b)).0 ≡ true
unfolding take refill
take-after_wait cfg now b h wait = ground arith

module _ (parse_ip : String → Option String) (cfg : Config) where
  abbrev key_of : Arrival → String
  key_of a = derive_key parse_ip cfg a.request a.principal

  -- The buckets after a sequence of requests
  unfoldable pub after : Dict Bucket → List Arrival → Dict Bucket
  after buckets [] = buckets
  after buckets (a ∷ more) = after (handle parse_ip cfg a.request a.principal a.time buckets).1 more

  lookup-handle_other :
      (k : String) (a : Arrival) (buckets : Dict Bucket)
      → key_of a ≢ k
      → lookup k (handle parse_ip cfg a.request a.principal a.time buckets).1 ≡ lookup k buckets
  unfolding handle
  lookup-handle_other k a buckets other = ground (
    arith,
    lookup-insert (key_of a) k (take cfg a.time (lookup (key_of a) buckets)).1 buckets,
    ==-false (key_of a) k other,
  )

  lookup-after_others :
      (k : String) (arrivals : List Arrival) (buckets : Dict Bucket)
      → All (λ a. key_of a ≢ k) arrivals
      → lookup k (after buckets arrivals) ≡ lookup k buckets
  unfolding after
  lookup-after_others k [] buckets others = refl
  lookup-after_others k (a ∷ more) buckets others =
      lookup-after_others k more (handle parse_ip cfg a.request a.principal a.time buckets).1
        others.1
      ∙ lookup-handle_other k a buckets others.0

  handle-found :
      (a : Arrival) (b : Bucket) (buckets : Dict Bucket)
      → lookup (key_of a) buckets ≡ some b
      → (take cfg a.time (some b)).0 ≡ true
      → let_through (handle parse_ip cfg a.request a.principal a.time buckets).0 ≡ true
  unfolding handle
  handle-found a b buckets found taken = rw (found, taken) refl

-- A request is let through when its key was last used so long before that the rate of the limiter has
-- made a token since, whatever was decided then and whatever requests with other keys came between.
pub handle-recovers :
    (parse_ip : String → Option String) (out : Decoded) (cfg : Config) (buckets : Dict Bucket)
    (before now : Arrival) (others : List Arrival)
    → configure out ≡ ok cfg
    → key_of parse_ip cfg before ≡ key_of parse_ip cfg now
    → All (λ a. key_of parse_ip cfg a ≢ key_of parse_ip cfg now) others
    → token ≤ (now.time - before.time) * cfg.requests_per_minute
    → let_through
        (handle parse_ip cfg now.request now.principal now.time
          (after parse_ip cfg buckets (before ∷ others))).0
      ≡ true
unfolding after handle
handle-recovers parse_ip out cfg buckets before now others configured same quiet wait =
    let k = key_of parse_ip cfg now in
    let taken = (take cfg before.time (lookup (key_of parse_ip cfg before) buckets)).1 in
    let stored : lookup k (after parse_ip cfg buckets (before ∷ others)) ≡ some taken =
      lookup-after_others parse_ip cfg k others _ quiet
      ∙ (ap (λ j. lookup j (insert (key_of parse_ip cfg before) taken buckets)) (sym same)
          ∙ lookup-inserted (key_of parse_ip cfg before) taken buckets) in
    let last = take-last cfg before.time (lookup (key_of parse_ip cfg before) buckets) in
    handle-found parse_ip cfg now taken (after parse_ip cfg buckets (before ∷ others)) stored
      (take-after_wait cfg now.time taken (configure-burst out cfg configured) (rw last wait))
