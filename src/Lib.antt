-- ===== src/Lib.antt =====
-- authsentinel: the backend-for-frontend agent and the enforcement proxy.
--
-- The agent (internal/agent) logs browsers in at an OpenID Connect provider, keeps their sessions in
-- Redis and gives them a signed cookie. The proxy (internal/proxy, pkg/proxy) asks the agent whom the
-- cookie of a request stands for, lets plugins and a policy decide, and passes allowed requests on with
-- identity headers.
--
-- Base and Text have what the modules share: results, Go maps as association lists, 64-bit integers,
-- and the functions of Go's strings package, whose laws are in Text.Laws and Text.Clash. Value has the
-- dynamic values of a claims map.
--
--   Session            pkg/session/session.go, pkce.go; store.go is in Session.Browser and Agent.Deps
--   Token.Claims       pkg/token/claims.go
--   Token.IdToken      pkg/token/validate_idtoken.go
--   Token.Jwks         pkg/token/jwks_http.go; Token.Source joins it to the ID token validation
--   Cookie             pkg/cookie: signed.go; encrypt.go and codec.go are in Cookie.Encrypt
--   Agent.Config       internal/agent/config/config.go
--   Agent.Redirect     internal/agent/service/redirect.go
--   Agent.Pkce         internal/agent/oidc/pkce.go
--   Agent.Deps         what the agent service is given: stores, provider, clock, random source
--   Oidc               internal/agent/oidc: discovery, token, end_session and revoke
--   Oidc.Plugin        pkg/plugins/provider/oidc/oidc.go
--   Agent.Login        LoginStart and LoginEnd of internal/agent/service/service.go
--   Agent.Sessions     Session, Resolve and AttachTenantContext of the same file
--   Agent.Refresh      Refresh of the same file
--   Agent.Logout       Logout of the same file
--   Agent.ErrorMap     internal/agent/errormap/errormap.go
--   Agent.Server       internal/agent/httpserver/server.go, over the interface of pkg/agent/agent.go
--   Agent.Provider     buildProviderPlugin of cmd/agent/main.go
--   Redis              internal/store/redis/redis.go
--   Proxy.Types        pkg/proxy/request.go, pkg/proxy/decision.go, pkg/policy/input.go, result.go
--   Proxy.Engine       pkg/proxy/engine.go
--   Proxy.Http         pkg/proxy/http.go, normalize.go, middleware.go
--   Proxy.Resolver     internal/proxy/resolver.go, internal/proxy/agentclient.go
--   Proxy.Identity     internal/proxy/headers.go
--   Proxy.Config       internal/proxy/config/config.go, and its use in cmd/proxy/main.go
--   Proxy.Server       the pages of internal/proxy/httpserver/server.go
--   Proxy.Pipeline     buildPipelinePlugins of cmd/proxy/main.go
--   Plugins            pkg/pluginregistry/registry.go; BuildDependencyGraph is in Plugins.Startup
--   Plugins.Discovery  pkg/plugindiscovery/discovery.go
--   Plugins.Builtin    pkg/plugins/builtin/registrar.go
--   Policy             pkg/policy; the choice of the engine is from cmd/proxy/main.go
--   Proxy.RateLimit    pkg/plugins/pipeline/ratelimit/ratelimit.go
--   Gateways           handler.go of pkg/plugins/caddy, pkg/plugins/traefik and pkg/plugins/krakend
--   ValidateConfig     cmd/validateconfig/main.go
--   Sdk                pkg/sdk: client.go, http.go, proxy_adapter.go and grpc.go
--
-- A handler is a flow (Agent.Flow): state passing in which a step either goes on or makes the handler
-- return. The state is the store and everything outside the process. Network, clock, random source,
-- cryptography, JSON, the JWT library, url.Parse and net.ParseIP are parameters. An error is its text.
-- The modules below a component, such as Agent.Login.Authenticated, hold its proofs, and those named
-- Tests apply the theorems to small concrete inputs.
--
-- Loops of the modelled code run over lists, except Kahn's algorithm in Plugins.Startup, whose fuel is the
-- number of plugins; Plugins.Startup.Terminates is about its being enough. The digits of a number have
-- fuel for 20, which 64 bits do not exceed. Integers of Go are signed and wrap around at 64 bits where
-- the code adds or subtracts. The float64 tokens of the rate limiter are exact numbers here, so a bound
-- on them says nothing of what rounding adds.
--
-- Not modelled are requests whose calls of the stores interleave, and the expiry of locks; logging and
-- tracing; the cookies and headers of the proxy's own answers, and the body of http.Redirect; claims that
-- are a json.Number; the gateways' own plugin interfaces, the mock provider of cmd/mockidp and the
-- reading of flags and environment at process start, which only call libraries or serve the tests.
--
-- A handler of the agent's server returns its calls of the ResponseWriter in order, and
-- Agent.Server.Http.respond makes the response of them. The Redis store works on a client whose laws are
-- in Redis.Protocol; Agent.Deps.Spec says what the agent's stores promise.
pub mod Base
pub mod Text
pub mod Value
pub mod Token
pub mod Session
pub mod Agent
pub mod Cookie
pub mod Plugins
pub mod Redis
pub mod Proxy
pub mod Policy
pub mod Oidc
pub mod Sdk
pub mod Gateways
pub mod ValidateConfig
