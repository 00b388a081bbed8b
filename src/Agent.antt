-- ===== src/Agent.antt =====
-- The agent: internal/agent/service, internal/agent/httpserver, internal/agent/config and
-- internal/agent/errormap.
pub mod Redirect
pub mod Config
pub mod Flow
pub mod Deps
pub mod Pkce
pub mod Login
pub mod Sessions
pub mod Refresh
pub mod Logout
pub mod ErrorMap
pub mod Server
pub mod Provider
pub mod Tests
