-- ===== src/Token/Jwks.antt =====
-- pkg/token/jwks_http.go: key sets by discovery, kept until they expire. HTTP, JSON, the clock and the
-- metrics are parameters over a state `X`; locks are left out, since a call runs under them to its end.
pub mod Origin
use authsentinel.Base.{
  Bool, true, false, not, String, Option, none, some, Result, ok, err, ℤ, pos, Dict, lookup, insert,
  add64, leb_ℤ, eqb_ℤ, if◌then◌else◌, ◌==◌,
}
use authsentinel.Agent.Flow.{World, M, ◌>>=◌, pure, stop, checked, call, run, on_env}
use authsentinel.Text.{◌+s◌, trim_suffix, itoa}

-- An entry of the cache: the key set and when it expires, in nanoseconds
pub record JwksEntry : Type 0 where
  pub keys : String
  pub exp : ℤ

abbrev pub Cache : Type 0
Cache = Dict JwksEntry

-- A response whose body has been read, or the error of reading it
pub record Fetched : Type 0 where
  pub status : ℤ
  pub body : Result String

pub record JwksDeps (X : Type 0) : Type 0 where
  pub http_get : String → X → Result Fetched × X
  pub parse_discovery : String → Result String
  pub now : X → ℤ × X
  pub cache_hit : String → X → Unit {0} × X
  pub cache_miss : String → X → Unit {0} × X

-- NewHTTPJWKSSource: five minutes where the lifetime is not positive
abbrev pub cache_ttl : ℤ → ℤ
cache_ttl ttl = if leb_ℤ ttl (pos 0) then pos 300000000000 else ttl

module _ {X : Type 0} (d : JwksDeps X) where
  abbrev body_of : String → Result Fetched → Result String
  body_of url (err e) = err e
  body_of url (ok resp) =
      if eqb_ℤ resp.status (pos 200)
      then resp.body
      else err ("get " +s url +s ": status " +s itoa resp.status)

  unfoldable pub fetch_url : String → X → Result String × X
  unfolding itoa
  fetch_url url x = let (resp, x) = d.http_get url x in (body_of url resp, x)

  abbrev pub discovery_url : String → String
  discovery_url issuer = issuer +s "/.well-known/openid-configuration"

  abbrev named : Result String → Result String
  named (err e) = err ("oidc discovery parse: " +s e)
  named (ok uri) = if uri == "" then err "oidc discovery: missing jwks_uri" else ok uri

  abbrev discovered : Result String → Result String
  discovered (err e) = err ("oidc discovery: " +s e)
  discovered (ok keys) = named (d.parse_discovery keys)

  unfoldable pub fetch_jwks_uri : String → X → Result String × X
  unfolding fetch_url
  fetch_jwks_uri issuer x =
      let (keys, x) = fetch_url (discovery_url issuer) x in (discovered keys, x)

  module _ (ttl : ℤ) where
    abbrev JwksFlow : Type 0 → Type 0
    JwksFlow = M (World Cache X) (Result String)

    abbrev at_time : JwksEntry → ℤ × World Cache X → Option String × World Cache X
    at_time e (now, w) = (if leb_ℤ e.exp now then none else some e.keys, w)

    abbrev check : Option JwksEntry → World Cache X → Option String × World Cache X
    check none w = (none, w)
    check (some e) w = at_time e (on_env d.now w)

    -- What the cache has for the issuer, if it has not expired
    unfoldable pub cached : String → World Cache X → Option String × World Cache X
    unfolding lookup
    cached issuer w = check (lookup issuer w.store) w

    served : String → Option String → JwksFlow (Unit {0})
    served issuer none = pure tt
    served issuer (some keys) = do _ ← call (on_env (d.cache_hit issuer)); stop (ok keys)

    keep : String → String → ℤ → World Cache X → Unit {0} × World Cache X
    unfolding insert
    keep issuer keys now w = (
      tt,
      record w { store = insert issuer (record { keys = keys; exp = add64 now ttl }) w.store },
    )

    jwks_flow : String → JwksFlow (Result String)
    unfolding cached served keep fetch_jwks_uri fetch_url
    jwks_flow issuer = do
      found ← call (cached issuer)
      _ ← served issuer found
      again ← call (cached issuer)
      _ ← served issuer again
      _ ← call (on_env (d.cache_miss issuer))
      uri ← checked err (on_env (fetch_jwks_uri issuer))
      keys ← checked err (on_env (fetch_url uri))
      now ← call (on_env d.now)
      _ ← call (keep issuer keys now)
      pure (ok keys)

    unfoldable pub get_jwks : String → World Cache X → Result String × World Cache X
    unfolding jwks_flow trim_suffix
    get_jwks issuer = run (jwks_flow (trim_suffix issuer "/"))
