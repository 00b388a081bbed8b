-- ===== src/Proxy.antt =====
-- The proxy: pkg/proxy, pkg/policy and internal/proxy.
pub mod Types
pub mod Engine
pub mod Http
pub mod RateLimit
pub mod Resolver
pub mod Identity
pub mod Config
pub mod Pipeline
pub mod Server
pub mod Tests
