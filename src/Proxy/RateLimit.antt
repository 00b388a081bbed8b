-- ===== src/Proxy/RateLimit.antt =====
-- pkg/plugins/pipeline/ratelimit/ratelimit.go. Times are nanoseconds. The number of tokens, a
-- float64 in the code, is exact here: it is counted in parts of which `token` make one token, so
-- that the tokens refilled in an interval of nanoseconds are a whole number of parts.
pub mod Bounds
pub mod Recovers
use authsentinel.Base.{
  ℕ, zero, suc, ◌+◌, ◌-◌, ◌*◌, Bool, true, false, ◌&&◌, ◌||◌, not, String, List, [], ◌∷◌, Option,
  none, some, Result, ok, err, ℤ, pos, pos_part, leb_ℤ, Dict, lookup, insert, ltb, leb,
  if◌then◌else◌, ◌==◌,
}
use authsentinel.Proxy.Types.{Request, Decision}
use authsentinel.Text.{split, trim_space, to_lower, equal_fold}
use authsentinel.Token.Claims.{Principal}

pub record Config : Type 0 where
  pub requests_per_minute : ℕ
  pub burst : ℕ
  pub key_strategy : String
  pub header_name : String

-- The configuration as it is decoded, before the checks
pub record Decoded : Type 0 where
  pub requests_per_minute : ℤ
  pub burst : ℤ
  pub key_strategy : String
  pub header_name : String

abbrev known_strategy : String → Bool
known_strategy s = s == "ip" || s == "principal" || s == "header"

unfoldable pub configure : Decoded → Result Config
unfolding to_lower trim_space
configure out =
    let strategy = to_lower (trim_space out.key_strategy) in
    if not (leb_ℤ (pos 1) out.requests_per_minute)
    then err "ratelimit: requests_per_minute must be >= 1"
    else if not (leb_ℤ (pos 1) out.burst)
    then err "ratelimit: burst must be >= 1"
    else if not (known_strategy strategy)
    then err "ratelimit: key_strategy must be one of: ip, principal, header"
    else if strategy == "header" && trim_space out.header_name == ""
    then err "ratelimit: header_name is required when key_strategy=header"
    else ok (record {
      requests_per_minute = pos_part out.requests_per_minute;
      burst = pos_part out.burst;
      key_strategy = strategy;
      header_name = out.header_name;
    })

abbrev or_empty : Option String → String
or_empty none = ""
or_empty (some s) = s

unfoldable pub first_header : Dict String → String → String
unfolding equal_fold
first_header [] key = ""
first_header ((k, v) ∷ m) key =
    let rest = first_header m key in if equal_fold k key then v else rest

-- The first one of a list that is not empty, or else a default.
abbrev first_of : List String → String → String
first_of [] other = other
first_of (s ∷ ss) other = let rest = first_of ss other in if s == "" then rest else s

abbrev head_or_empty : List String → String
head_or_empty [] = ""
head_or_empty (s ∷ _) = s

abbrev parsed_or : String → Option String → String
parsed_or ip none = ip
parsed_or ip (some parsed) = parsed

-- `parse_ip` is net.ParseIP and the String method of its result.
module _ (parse_ip : String → Option String) where
  unfoldable pub first_ip : String → String
  unfolding split trim_space
  first_ip v = let ip = trim_space (head_or_empty (split b',' v)) in parsed_or ip (parse_ip ip)

  -- The address that a header names; "" for a header that is blank.
  unfoldable pub header_ip : Dict String → String → String
  unfolding first_header first_ip trim_space
  header_ip headers key =
      let v = trim_space (first_header headers key) in if v == "" then "" else first_ip v

  abbrev subject_of : Option Principal → String
  subject_of none = "anonymous"
  subject_of (some p) = if trim_space p.subject == "" then "anonymous" else p.subject

  unfoldable pub derive_key : Config → Request → Option Principal → String
  unfolding lookup trim_space header_ip
  derive_key cfg req principal =
      if cfg.key_strategy == "principal"
      then subject_of principal
      else if cfg.key_strategy == "header"
      then first_of (trim_space (or_empty (lookup cfg.header_name req.headers)) ∷ []) "anonymous"
      else if cfg.key_strategy == "ip"
      then first_of
          (header_ip req.headers "X-Forwarded-For"
            ∷ header_ip req.headers "X-Real-IP"
            ∷ header_ip req.headers "X-Client-IP"
            ∷ [])
          "anonymous"
      else "anonymous"

pub record Bucket : Type 0 where
  pub tokens : ℕ
  pub last : ℕ

-- The parts of one token: a minute in nanoseconds.
abbrev pub token : ℕ
token = 60000000000

abbrev pub capacity : Config → ℕ
capacity cfg = cfg.burst * token

abbrev bucket_or_full : Config → ℕ → Option Bucket → Bucket
bucket_or_full cfg now none = record { tokens = capacity cfg; last = now }
bucket_or_full cfg now (some b) = b

abbrev pub min : ℕ → ℕ → ℕ
min a b = if ltb a b then a else b

-- The tokens after the elapsed time has been credited
unfoldable pub refill : Config → ℕ → Bucket → ℕ
refill cfg now b =
    let filled = b.tokens + (now - b.last) * cfg.requests_per_minute in
    if ltb b.last now then min (capacity cfg) filled else b.tokens

-- Whether a request at this time is let through, and the bucket that it leaves.
unfoldable pub take : Config → ℕ → Option Bucket → Bool × Bucket
unfolding refill
take cfg now found =
    let filled = refill cfg now (bucket_or_full cfg now found) in
    if leb token filled
    then (true, record { tokens = filled - token; last = now })
    else (false, record { tokens = filled; last = now })

abbrev limited : Bool → Option Decision
limited true = none
limited false = some (record {
  allow = false;
  status_code = pos 429;
  headers = none;
  reason = "rate limit exceeded";
  obligations = none;
})

-- Handle, at the time `now`
unfoldable pub handle :
    (String → Option String)
    → Config
    → Request
    → Option Principal
    → ℕ
    → Dict Bucket
    → Result (Option Decision) × Dict Bucket
unfolding lookup insert derive_key take
handle parse_ip cfg req principal now buckets =
    let key = derive_key parse_ip cfg req principal in
    let taken = take cfg now (lookup key buckets) in
    (ok (limited taken.0), insert key taken.1 buckets)
