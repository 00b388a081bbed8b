-- ===== src/Redis.antt =====
-- internal/store/redis/redis.go: the agent's stores over a Redis client. The client, the JSON codec
-- and the metrics are parameters; `R` is the state behind all of them.
pub mod Protocol
pub mod Contents
pub mod Refines
use authsentinel.Base.{
  Bool, true, false, String, Option, none, some, Result, ok, err, ℤ, pos, mul64, if◌then◌else◌,
  ◌==◌,
}
use authsentinel.Agent.Deps.{Stores}
use authsentinel.Session.{
  Session, PkceState, KeyLayout, session_key, pkce_key, refresh_lock_key, revoked_key, replay_key,
}
use Protocol.{Reply, value, missing, failed, Client, Json}

-- time.Duration(ttlSeconds) * time.Second
unfoldable pub seconds : ℤ → ℤ
unfolding mul64
seconds n = mul64 n (pos 1000000000)

module _ {R : Type 0} (client : Client R) (json : Json) (layout : KeyLayout) where
  abbrev note : {A : Type 0} → String → Bool → A → R → A × R
  note op good a s = (a, client.metric op good s)

  abbrev pub parsed : {A : Type 0} → String → Result A → R → Result (Option A) × R
  parsed op (ok a) s = note op true (ok (some a)) s
  parsed op (err e) s = note op false (err e) s

  -- The answer to a GET: a missing key is no error.
  abbrev pub read :
      {A : Type 0} → String → (String → Result A) → Reply String × R → Result (Option A) × R
  read op decode (value text, s) = parsed op (decode text) s
  read op decode (missing, s) = note op true (ok none) s
  read op decode (failed e, s) = note op false (err e) s

  abbrev pub written : String → Result (Unit {0}) × R → Result (Unit {0}) × R
  written op (ok u, s) = note op true (ok u) s
  written op (err e, s) = note op false (err e) s

  abbrev pub write : String → String → Result String → ℤ → R → Result (Unit {0}) × R
  write op key (err e) ttl s = note op false (err e) s
  write op key (ok text) ttl s = written op (client.set key text (seconds ttl) s)

  unfoldable pub get_session : String → R → Result (Option Session) × R
  unfolding session_key
  get_session id s = read "session_get" json.read_session (client.get (session_key layout id) s)

  unfoldable pub set_session : String → Session → ℤ → R → Result (Unit {0}) × R
  unfolding session_key seconds
  set_session id sess ttl s =
      write "session_set" (session_key layout id) (json.write_session sess) ttl s

  unfoldable pub delete_session : String → R → Result (Unit {0}) × R
  unfolding session_key
  delete_session id s = written "session_del" (client.del (session_key layout id) s)

  unfoldable pub get_pkce : String → R → Result (Option PkceState) × R
  unfolding pkce_key
  get_pkce state s = read "pkce_get" json.read_pkce (client.get (pkce_key layout state) s)

  unfoldable pub set_pkce : String → PkceState → ℤ → R → Result (Unit {0}) × R
  unfolding pkce_key seconds
  set_pkce state p ttl s = write "pkce_set" (pkce_key layout state) (json.write_pkce p) ttl s

  unfoldable pub delete_pkce : String → R → Result (Unit {0}) × R
  unfolding pkce_key
  delete_pkce state s = written "pkce_del" (client.del (pkce_key layout state) s)

  -- A SET with NX on a key that is there has no reply, which the client reports as an error.
  abbrev pub obtained : Reply String × R → Result Bool × R
  obtained (value result, s) = note "refresh_lock_obtain" (result == "OK") (ok (result == "OK")) s
  obtained (missing, s) = note "refresh_lock_obtain" false (err "redis: nil") s
  obtained (failed e, s) = note "refresh_lock_obtain" false (err e) s

  unfoldable pub obtain_refresh_lock : String → ℤ → R → Result Bool × R
  unfolding refresh_lock_key seconds
  obtain_refresh_lock id ttl s =
      obtained (client.set_nx (refresh_lock_key layout id) "1" (seconds ttl) s)

  unfoldable pub release_refresh_lock : String → R → Result (Unit {0}) × R
  unfolding refresh_lock_key
  release_refresh_lock id s =
      written "refresh_lock_release" (client.del (refresh_lock_key layout id) s)

  unfoldable pub set_revoked : String → ℤ → R → Result (Unit {0}) × R
  unfolding revoked_key
  set_revoked id ttl s = client.set (revoked_key layout id) "1" ttl s

  abbrev seen : Reply String × R → Result Bool × R
  seen (value _, s) = (ok true, s)
  seen (missing, s) = (ok false, s)
  seen (failed e, s) = (err e, s)

  unfoldable pub is_revoked : String → R → Result Bool × R
  unfolding revoked_key
  is_revoked id s = seen (client.get (revoked_key layout id) s)

  unfoldable pub record_replay : String → ℤ → R → Result (Unit {0}) × R
  unfolding replay_key
  record_replay key ttl s = client.set (replay_key layout key) "1" ttl s

  unfoldable pub check_replay : String → R → Result Bool × R
  unfolding replay_key
  check_replay key s = seen (client.get (replay_key layout key) s)

  -- SessionStore, PKCEStore and RefreshLockStore of one Store
  abbrev pub redis_stores : Stores R
  redis_stores = record {
    session_get = get_session;
    session_set = set_session;
    session_delete = delete_session;
    pkce_get = get_pkce;
    pkce_set = set_pkce;
    pkce_delete = delete_pkce;
    lock_obtain = obtain_refresh_lock;
    lock_release = release_refresh_lock;
  }
