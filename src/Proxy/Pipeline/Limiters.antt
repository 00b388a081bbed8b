-- ===== src/Proxy/Pipeline/Limiters.antt =====
-- The pipelines that can be configured.
use authsentinel.Base.{
  ◌≡◌, ◌≢◌, refl, sym, ap, ◌∙◌, ◌≤◌, String, List, [], ◌∷◌, Option, none, some, Result, ok, err,
  arith, eq_iff, ◌==◌, if◌then◌else◌, Bool-cases, Result-cases, inl, inr,
}
use authsentinel.Plugins.{Registration, Registry, registration_for}
use authsentinel.Plugins.Builtin.{Made, rate_limiter, oidc_provider, factory}
use authsentinel.Proxy.Config.{PipelinePluginEntry}
use authsentinel.Proxy.Pipeline.{
  Decoders, plugin_at, before, configured, made, limiter_of, no_pipeline_plugin,
  build_pipeline_plugins,
}
use authsentinel.Oidc.{Client}
use authsentinel.Oidc.Plugin as OidcPlugin
use authsentinel.Proxy.RateLimit.{Config, Decoded, configure}
use authsentinel.Value.{Claims}

abbrev pub named_entries : List PipelinePluginEntry → List PipelinePluginEntry
named_entries [] = []
named_entries (entry ∷ more) =
    let rest = named_entries more in if entry.id == "" then rest else entry ∷ rest

-- The limiter for an entry has a rate and a burst, and its raw configuration decodes to its own.
pub record LimiterFor (d : Decoders) (entry : PipelinePluginEntry) (cfg : Config) : Type 0 where
  pub id_is : entry.id ≡ "pipeline:ratelimit"
  pub decoded : Decoded
  pub decodes : d.limits entry.raw ≡ ok decoded
  pub configures : configure decoded ≡ ok cfg
  pub rate : 1 ≤ cfg.requests_per_minute
  pub burst : 1 ≤ cfg.burst

abbrev pub EachFor : Decoders → List PipelinePluginEntry → List Config → Type 0
EachFor d [] [] = Unit
EachFor d [] (cfg ∷ cfgs) = ⊥
EachFor d (entry ∷ entries) [] = ⊥
EachFor d (entry ∷ entries) (cfg ∷ cfgs) = LimiterFor d entry cfg × EachFor d entries cfgs

configure-positive :
    (out : Decoded) (cfg : Config)
    → configure out ≡ ok cfg
    → (1 ≤ cfg.requests_per_minute) × (1 ≤ cfg.burst)
unfolding configure
configure-positive out cfg h = ground arith

limiter-decodes :
    (d : Decoders) (r : Registry) (id : String) (x : Result Decoded) (cfg : Config)
    → limiter_of d r id (configured d r configure x) ≡ ok cfg
    → (out : Decoded) × (x ≡ ok out) × (configure out ≡ ok cfg)
limiter-decodes d r id (err e) cfg h = ground arith
limiter-decodes d r id (ok out) cfg h = elim (Result-cases (configure out)) [
  | inl (made_cfg, made_ok) ↦ (out, refl, made_ok ∙ sym (ap (limiter_of d r id) made_ok) ∙ h)
  | inr (e, failed) ↦ ground (arith, failed, h)
]

no_pipeline_plugin-err :
    (d : Decoders) (r : Registry) (id : String) (x : Result Client) (cfg : Config)
    → no_pipeline_plugin d r id x ≢ ok cfg
no_pipeline_plugin-err d r id (err e) cfg h = ground arith
no_pipeline_plugin-err d r id (ok c) cfg h = ground arith

made-limiter :
    (d : Decoders) (r : Registry) (id : String) (raw : Claims) (x : Result Made) (cfg : Config)
    → made d r id raw x ≡ ok cfg
    → (x ≡ ok rate_limiter) × (limiter_of d r id (configured d r configure (d.limits raw)) ≡ ok cfg)
made-limiter d r id raw (err e) cfg h = ground arith
made-limiter d r id raw (ok rate_limiter) cfg h = (refl, h)
made-limiter d r id raw (ok oidc_provider) cfg h =
    absurd (no_pipeline_plugin-err d r id (configured d r OidcPlugin.configure (d.oidc raw)) cfg h)

factory-limiter : (id : String) → factory id ≡ ok rate_limiter → id ≡ "pipeline:ratelimit"
unfolding factory
factory-limiter id h = elim (Bool-cases (id == "pipeline:ratelimit")) [
  | inl mine ↦ (eq_iff id "pipeline:ratelimit").0 mine
  | inr other ↦ ground (arith, other, h)
]

plugin_at-LimiterFor :
    (d : Decoders) (r : Registry) (entry : PipelinePluginEntry) (found : Option Registration)
    (cfg : Config)
    → plugin_at d r entry.id entry.raw found ≡ ok cfg
    → LimiterFor d entry cfg
plugin_at-LimiterFor d r entry none cfg h = ground arith
plugin_at-LimiterFor d r entry (some reg) cfg h =
    let (is_limiter, limits) = made-limiter d r entry.id entry.raw (factory entry.id) cfg h in
    let (out, decodes, configures) = limiter-decodes d r entry.id (d.limits entry.raw) cfg limits in
    record {
      id_is = factory-limiter entry.id is_limiter;
      decoded = out;
      decodes = decodes;
      configures = configures;
      rate = (configure-positive out cfg configures).0;
      burst = (configure-positive out cfg configures).1;
    }

before-ok :
    (d : Decoders) (r : Registry) (x : Result Config) (xs : Result (List Config))
    (cfgs : List Config)
    → before d r x xs ≡ ok cfgs
    → (cfg : Config) × (more : List Config) × (x ≡ ok cfg) × (xs ≡ ok more) × (cfgs ≡ cfg ∷ more)
before-ok d r (err e) xs cfgs h = ground arith
before-ok d r (ok cfg) (err e) cfgs h = ground arith
before-ok d r (ok cfg) (ok more) cfgs h = (cfg, more, refl, refl, ground arith)

-- If the pipeline of the configured entries is built, then it has one limiter for each entry with an
-- ID, in their order. Each such entry names the rate limiter, and its limiter has the configuration to
-- which the raw configuration of the entry decodes and that Configure accepts, with at least one
-- request a minute and a burst of at least one.
pub build_pipeline_plugins-EachFor :
    (d : Decoders) (r : Registry) (entries : List PipelinePluginEntry) (cfgs : List Config)
    → build_pipeline_plugins d r entries ≡ ok cfgs
    → EachFor d (named_entries entries) cfgs
unfolding build_pipeline_plugins
build_pipeline_plugins-EachFor d r [] [] h = tt
build_pipeline_plugins-EachFor d r [] (cfg ∷ cfgs) h = ground arith
build_pipeline_plugins-EachFor d r (entry ∷ more) cfgs h = elim (Bool-cases (entry.id == "")) [
  | inl blank ↦ rw blank (build_pipeline_plugins-EachFor d r more cfgs (ground (arith, blank, h)))
  | inr given ↦
      let (cfg, rest, one, others, all) =
        before-ok d r (plugin_at d r entry.id entry.raw (registration_for r entry.id))
          (build_pipeline_plugins d r more) cfgs (ground (arith, given, h)) in
      rw (given, all)
        (
          plugin_at-LimiterFor d r entry (registration_for r entry.id) cfg one,
          build_pipeline_plugins-EachFor d r more rest others,
        )
]
