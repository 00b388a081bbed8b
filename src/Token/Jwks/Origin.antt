-- ===== src/Token/Jwks/Origin.antt =====
-- Where the key sets that are handed out come from.
use authsentinel.Base.{
  ◌≡◌, inl, inr, sym, ap, ◌∙◌, ◌≢◌, false, String, none, some, Result, ok, ℤ, lookup, leb_ℤ, arith,
  Bool-cases, Result-cases, Option-cases, ok_injective, ne_of_==-false, ◌==◌,
}
use authsentinel.Agent.Flow.{World, run}
use authsentinel.Text.{trim_suffix}
use authsentinel.Token.Jwks.{
  JwksEntry, Cache, JwksDeps, fetch_url, fetch_jwks_uri, discovery_url, cached, served, keep,
  jwks_flow, get_jwks,
}

module _ {X : Type 0} (d : JwksDeps X) (ttl : ℤ) where
  -- The keys are those of a cache entry that has not expired, or have just been fetched from the address
  -- that the issuer's discovery document names.
  pub data Origin (issuer keys : String) (w : World Cache X) : Type 0 where
    by_cache :
        (e : JwksEntry) (x : X)
        → lookup issuer w.store ≡ some e
        → leb_ℤ e.exp (d.now x).0 ≡ false
        → e.keys ≡ keys
        → Origin issuer keys w
    by_fetch :
        (document uri : String) (x x' : X)
        → (fetch_url d (discovery_url d issuer) x).0 ≡ ok document
        → d.parse_discovery document ≡ ok uri
        → uri ≢ ""
        → (fetch_url d uri x').0 ≡ ok keys
        → Origin issuer keys w

  cached-entry :
      (issuer keys : String) (w : World Cache X)
      → (cached d ttl issuer w).0 ≡ some keys
      → (e : JwksEntry) × (x : X) × (lookup issuer w.store ≡ some e)
        × (leb_ℤ e.exp (d.now x).0 ≡ false)
        × (e.keys ≡ keys)
  unfolding cached
  cached-entry issuer keys w h = elim (Option-cases (lookup issuer w.store)) [
    | inl missing ↦ absurd (ground (arith, missing, h))
    | inr (e, there) ↦ (e, w.env, there, ground (arith, there, h), ground (arith, there, h))
  ]

  cached-store : (issuer : String) (w : World Cache X) → (cached d ttl issuer w).1.store ≡ w.store
  unfolding cached
  cached-store issuer w = ground arith

  fetch_jwks_uri-found :
      (issuer uri : String) (x : X)
      → (fetch_jwks_uri d issuer x).0 ≡ ok uri
      → (document : String) × ((fetch_url d (discovery_url d issuer) x).0 ≡ ok document)
        × (d.parse_discovery document ≡ ok uri)
        × (uri ≢ "")
  unfolding fetch_jwks_uri
  fetch_jwks_uri-found issuer uri x h =
      elim (Result-cases (fetch_url d (discovery_url d issuer) x).0) [
        | inr (e, failed) ↦ absurd (ground (arith, failed, h))
        | inl (document, got) ↦ elim (Result-cases (d.parse_discovery document)) [
          | inr (e, failed) ↦ absurd (ground (arith, got, failed, h))
          | inl (name, decoded) ↦ elim (Bool-cases (name == "")) [
            | inl blank ↦ absurd (ground (arith, got, decoded, blank, h))
            | inr given ↦
                let same : name ≡ uri = ground (arith, got, decoded, given, h) in
                (document, got, decoded ∙ ap ok same, λ e. ne_of_==-false name "" given (same ∙ e))
          ]
        ]
      ]

  flow : String → World Cache X → Result String × World Cache X
  flow issuer = run (jwks_flow d ttl issuer)

  flow-hit :
      (issuer keys : String) (w : World Cache X)
      → (cached d ttl issuer w).0 ≡ some keys
      → (flow issuer w).0 ≡ ok keys
  unfolding flow jwks_flow run served
  flow-hit issuer keys w h = ground (arith, h)

  flow-again :
      (issuer keys : String) (w : World Cache X)
      → (cached d ttl issuer w).0 ≡ none
      → (cached d ttl issuer (cached d ttl issuer w).1).0 ≡ some keys
      → (flow issuer w).0 ≡ ok keys
  unfolding flow jwks_flow run served
  flow-again issuer keys w h k = ground (arith, h, k)

  -- The state in which the keys are fetched
  abbrev missed : String → World Cache X → X
  missed issuer w = (d.cache_miss issuer (cached d ttl issuer (cached d ttl issuer w).1).1.env).1

  flow-fetch :
      (issuer : String) (w : World Cache X)
      → (cached d ttl issuer w).0 ≡ none
      → (cached d ttl issuer (cached d ttl issuer w).1).0 ≡ none
      → (keys : String) → (flow issuer w).0 ≡ ok keys
      → (uri : String) × ((fetch_jwks_uri d issuer (missed issuer w)).0 ≡ ok uri)
        × ((fetch_url d uri (fetch_jwks_uri d issuer (missed issuer w)).1).0 ≡ ok keys)
  unfolding flow jwks_flow run served keep
  flow-fetch issuer w h k keys answer =
      elim (Result-cases (fetch_jwks_uri d issuer (missed issuer w)).0) [
        | inr (e, failed) ↦ absurd (ground (arith, h, k, failed, answer))
        | inl (uri, found) ↦
            elim (Result-cases (fetch_url d uri (fetch_jwks_uri d issuer (missed issuer w)).1).0) [
              | inr (e, failed) ↦ absurd (ground (arith, h, k, found, failed, answer))
              | inl (got, fetched) ↦
                  let same : got ≡ keys = ground (arith, h, k, found, fetched, answer) in
                  (uri, found, fetched ∙ ap ok same)
            ]
      ]

  flow-Origin :
      (issuer keys : String) (w : World Cache X)
      → (flow issuer w).0 ≡ ok keys
      → Origin issuer keys w
  flow-Origin issuer keys w answer = elim (Option-cases (cached d ttl issuer w).0) [
    | inr (first, hit) ↦
        let (e, x, there, fresh, same) = cached-entry issuer first w hit in
        by_cache e x there fresh (same ∙ ok_injective (sym (flow-hit issuer first w hit) ∙ answer))
    | inl miss ↦ elim (Option-cases (cached d ttl issuer (cached d ttl issuer w).1).0) [
      | inr (second, hit) ↦
          let (e, x, there, fresh, same) =
            cached-entry issuer second (cached d ttl issuer w).1 hit in
          by_cache e x (sym (ap (lookup issuer) (cached-store issuer w)) ∙ there) fresh
            (same ∙ ok_injective (sym (flow-again issuer second w miss hit) ∙ answer))
      | inl gone ↦
          let (uri, found, fetched) = flow-fetch issuer w miss gone keys answer in
          let (document, got, decoded, given) =
            fetch_jwks_uri-found issuer uri (missed issuer w) found in
          by_fetch document uri (missed issuer w) (fetch_jwks_uri d issuer (missed issuer w)).1 got
            decoded given fetched
    ]
  ]

  -- The keys handed out for an issuer are those of a cache entry of this issuer that has not expired, or
  -- were fetched by this call from the address that the issuer's discovery document names.
  pub get_jwks-Origin :
      (issuer keys : String) (w : World Cache X)
      → (get_jwks d ttl issuer w).0 ≡ ok keys
      → Origin (trim_suffix issuer "/") keys w
  unfolding get_jwks flow
  get_jwks-Origin issuer keys w answer = flow-Origin (trim_suffix issuer "/") keys w answer
