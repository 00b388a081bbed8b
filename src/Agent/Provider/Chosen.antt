-- ===== src/Agent/Provider/Chosen.antt =====
-- The provider that the agent runs with.
use authsentinel.Base.{
  ◌≡◌, ◌↔◌, refl, arith, String, Option, none, some, Result, ok, err, eq_iff, ◌==◌, Bool-cases, inl,
  inr, lookup,
}
use authsentinel.Agent.Config as AgentConfig
use authsentinel.Agent.Provider.{
  provider_id, provider_config, made_provider, registered_provider, provider_in,
  build_provider_plugin,
}
use authsentinel.Oidc.{Client}
use authsentinel.Oidc.Plugin as OidcPlugin
use authsentinel.Plugins.{Registration, Registry, new, registration_for}
use authsentinel.Plugins.Builtin.{Made, rate_limiter, oidc_provider, register_builtins, factory}

factory-provider : (id : String) → factory id ≡ ok oidc_provider → id ≡ "provider:oidc"
unfolding factory
factory-provider id h = elim (Bool-cases (id == "provider:oidc")) [
  | inl mine ↦ (eq_iff id "provider:oidc").0 mine
  | inr other ↦ ground (arith, other, h)
]

module _ (quote : String → String) (cfg : AgentConfig.Config) where
  made_provider-oidc :
      (id : String) (x : Result Made) (client : Client)
      → made_provider quote cfg id x ≡ ok client
      → (x ≡ ok oidc_provider) × (OidcPlugin.configure (provider_config cfg) ≡ ok client)
  made_provider-oidc id (err e) client h = ground arith
  made_provider-oidc id (ok rate_limiter) client h = ground arith
  made_provider-oidc id (ok oidc_provider) client h = (refl, h)

  registered_provider-oidc :
      (id : String) (found : Option Registration) (client : Client)
      → registered_provider quote cfg id found ≡ ok client
      → (id ≡ "provider:oidc") × (OidcPlugin.configure (provider_config cfg) ≡ ok client)
  registered_provider-oidc id none client h = ground arith
  registered_provider-oidc id (some reg) client h =
      let (is_oidc, made) = made_provider-oidc id (factory id) client h in
      (factory-provider id is_oidc, made)

  provider_in-oidc :
      (id : String) (r : Result Registry) (client : Client)
      → provider_in quote cfg id r ≡ ok client
      → (id ≡ "provider:oidc") × (OidcPlugin.configure (provider_config cfg) ≡ ok client)
  provider_in-oidc id (err e) client h = ground arith
  provider_in-oidc id (ok r) client h = registered_provider-oidc id (registration_for r id) client h

  pub build_provider_plugin-oidc :
      (client : Client)
      → (build_provider_plugin quote cfg ≡ ok client) ↔ (
          (provider_id cfg.provider_plugin_id ≡ "provider:oidc")
          × (OidcPlugin.configure (provider_config cfg) ≡ ok client))
  unfolding build_provider_plugin register_builtins factory registration_for lookup
  build_provider_plugin-oidc client = (
    λ h. provider_in-oidc (provider_id cfg.provider_plugin_id) (register_builtins new) client h,
    λ (named, made). rw named made,
  )
