-- ===== src/Session.antt =====
-- pkg/session/session.go and pkg/session/pkce.go
pub mod Expiry
pub mod Browser
mod Tests
use authsentinel.Base.{Bool, String, Option, ℤ, sub64, leb_ℤ, pos, if◌then◌else◌, ◌==◌}
use authsentinel.Text.{◌+s◌}
use authsentinel.Value.{Claims}

pub record TenantContext : Type 0 where
  pub tenant_id : String
  pub tenant_slug : String
  pub status : String
  pub locale : String
  pub timezone : String

pub record Session : Type 0 where
  pub id : String
  pub access_token : String
  pub refresh_token : String
  pub id_token : String
  pub expires_at : ℤ
  pub claims : Claims
  pub tenant_context : Option TenantContext

pub record PkceState : Type 0 where
  pub state : String
  pub code_verifier : String
  pub code_challenge : String
  pub nonce : String
  pub redirect_to : String

-- `now` is the Unix time in seconds.
unfoldable pub is_expired : Session → ℤ → Bool
is_expired s now = leb_ℤ s.expires_at now

unfoldable pub needs_refresh : Session → ℤ → ℤ → Bool
unfolding sub64
needs_refresh s now early = leb_ℤ (sub64 s.expires_at early) now

pub record KeyLayout : Type 0 where
  pub session_prefix : String
  pub pkce_prefix : String
  pub refresh_lock_prefix : String
  pub revoked_prefix : String
  pub replay_prefix : String
  pub session_ttl_seconds : ℤ
  pub pkce_ttl_seconds : ℤ
  pub refresh_lock_ttl_seconds : ℤ

abbrev pub default_key_layout : KeyLayout
default_key_layout = record {
  session_prefix = "auth:session:";
  pkce_prefix = "auth:pkce:";
  refresh_lock_prefix = "auth:refresh_lock:";
  revoked_prefix = "auth:revoked:";
  replay_prefix = "auth:replay:";
  session_ttl_seconds = pos 36000;
  pkce_ttl_seconds = pos 300;
  refresh_lock_ttl_seconds = pos 15;
}

unfoldable pub session_key : KeyLayout → String → String
session_key k session_id = k.session_prefix +s session_id

unfoldable pub pkce_key : KeyLayout → String → String
pkce_key k state = k.pkce_prefix +s state

unfoldable pub refresh_lock_key : KeyLayout → String → String
refresh_lock_key k session_id = k.refresh_lock_prefix +s session_id

unfoldable pub revoked_key : KeyLayout → String → String
revoked_key k id = if k.revoked_prefix == "" then "auth:revoked:" +s id else k.revoked_prefix +s id

unfoldable pub replay_key : KeyLayout → String → String
replay_key k key = if k.replay_prefix == "" then "auth:replay:" +s key else k.replay_prefix +s key
