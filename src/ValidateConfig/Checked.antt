-- ===== src/ValidateConfig/Checked.antt =====
-- What a configuration that passes the check has.
use authsentinel.Base.{
  ◌≡◌, refl, arith, ◌⊎◌, inl, inr, Bool, ◌||◌, String, Result, ok, err, ◌==◌, Bool-cases, eq_iff,
  ◌≢◌, ne_of_==-false,
}
use authsentinel.Agent.Config as AgentConfig
use authsentinel.Proxy.Config as ProxyConfig
use authsentinel.Agent.Config.Valid.{Valid, validate-Valid}
use authsentinel.Proxy.Config.Ready.{Ready, startup_config-Ready}
use authsentinel.Text.{◌+s◌, to_lower}
use authsentinel.ValidateConfig.{
  Files, first_set, binary_of, then_on, valid, agent_loaded, proxy_loaded, readable, run, exit_code,
  main,
}

valid-ok : {A : Type 0} (r : Result A) → valid r ≡ ok tt → (a : A) × (r ≡ ok a)
valid-ok (err e) h = ground arith
valid-ok (ok a) h = (a, refl)

then_on-ok :
    {A : Type 0} (r : Result A) (next : A → Result (Unit {0}))
    → then_on r next ≡ ok tt
    → (a : A) × (r ≡ ok a) × (next a ≡ ok tt)
then_on-ok (err e) next h = ground arith
then_on-ok (ok a) next h = (a, refl, h)

module _ {Yaml : Type 0} (f : Files Yaml) where
  abbrev pub yaml_at : String → Bool
  yaml_at path = to_lower (f.ext path) == ".yaml" || to_lower (f.ext path) == ".yml"

  -- The file has a configuration for the agent, and Validate accepts it with the defaults and has it
  -- with all that the agent needs.
  abbrev pub AgentChecked : String → Type 0
  AgentChecked path =
      (cfg : AgentConfig.Config) × (checked : AgentConfig.Config) × (agent_loaded f (yaml_at path)
          path
        ≡ ok cfg)
      × (AgentConfig.validate (AgentConfig.apply_defaults cfg) ≡ ok checked)
      × Valid checked

  -- Likewise for the proxy
  abbrev pub ProxyChecked : String → Type 0
  ProxyChecked path =
      (cfg : ProxyConfig.Config) × (checked : ProxyConfig.Config) × (proxy_loaded f (yaml_at path)
          path
        ≡ ok cfg)
      × (ProxyConfig.startup_config cfg ≡ ok checked)
      × Ready cfg checked

  run-Checked :
      (path binary : String)
      → run f path binary ≡ ok tt
      → ((binary ≡ "agent") × AgentChecked path) ⊎ ((binary ≡ "proxy") × ProxyChecked path)
  unfolding run
  run-Checked path binary h = elim (Bool-cases (binary == "agent")) [
    | inl agent ↦
        let (cfg, loaded, passes) =
          then_on-ok (agent_loaded f (yaml_at path) path)
            (λ cfg. valid (AgentConfig.validate (AgentConfig.apply_defaults cfg)))
            (ground (arith, agent, h)) in
        let (started, starts) = valid-ok _ passes in
        inl (
          (eq_iff binary "agent").0 agent,
          (cfg, started, loaded, starts, validate-Valid _ started starts),
        )
    | inr other ↦ elim (Bool-cases (binary == "proxy")) [
      | inl proxy ↦
          let (cfg, loaded, passes) =
            then_on-ok (proxy_loaded f (yaml_at path) path)
              (λ cfg. valid (ProxyConfig.startup_config cfg)) (ground (arith, other, proxy, h)) in
          let (started, starts) = valid-ok _ passes in
          inr (
            (eq_iff binary "proxy").0 proxy,
            (cfg, started, loaded, starts, startup_config-Ready cfg started starts),
          )
      | inr unknown ↦
          let (_, _, refuses) =
            then_on-ok (readable f (yaml_at path) path)
              (λ _. err ("unknown BINARY=" +s f.quote binary +s " (use agent or proxy)"))
              (ground (arith, other, unknown, h)) in
          absurd (ground (arith, refuses))
    ]
  ]

  exit_code-zero : (r : Result (Unit {0})) → exit_code f r ≡ 0 → r ≡ ok tt
  exit_code-zero (err e) h = ground arith
  exit_code-zero (ok tt) h = refl

  -- If the check of a configuration file exits with 0, then there is a path, and the check was for the
  -- agent or for the proxy. The configuration that was loaded from the file, as YAML or JSON by its name,
  -- is accepted with the defaults by the Validate of that binary, and what Validate leaves has the
  -- settings that Validate is there to ensure: for the agent, issuer, redirect URI, client, Redis
  -- address, signing secret, base URL, claim source, scopes and redirect paths; for the proxy, upstream,
  -- agent, policy engine, fallback, path prefix, cookie name and port.
  pub main-Checked :
      (config agent proxy binary : String)
      → main f config agent proxy binary ≡ 0
      → (first_set config (first_set agent proxy) ≢ "")
        × (((binary_of binary (first_set config (first_set agent proxy)) ≡ "agent")
              × AgentChecked (first_set config (first_set agent proxy)))
            ⊎ ((binary_of binary (first_set config (first_set agent proxy)) ≡ "proxy")
                × ProxyChecked (first_set config (first_set agent proxy))))
  unfolding main
  main-Checked config agent proxy binary h =
      let path = first_set config (first_set agent proxy) in
      elim (Bool-cases (path == "")) [
        | inl empty ↦ absurd (ground (arith, empty, h))
        | inr given ↦ (
          ne_of_==-false path "" given,
          run-Checked path (binary_of binary path)
              (exit_code-zero (run f path (binary_of binary path)) (ground (arith, given, h))),
        )
      ]
