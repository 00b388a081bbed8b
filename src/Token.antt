-- ===== src/Token.antt =====
-- pkg/token: claims and principals, validation of ID tokens, and the JWKS cache.
pub mod Claims
pub mod IdToken
pub mod Jwks
pub mod Source
mod Tests
