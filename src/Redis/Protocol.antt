-- ===== src/Redis/Protocol.antt =====
-- The Redis client and the JSON codec that the store is given, and what it relies on.
use authsentinel.Base.{◌≡◌, Bool, false, String, Option, none, some, Result, ok, ℤ, ◌==◌}
use authsentinel.Session.{Session, PkceState}
use authsentinel.Value.{Claims}

-- The reply to a command; `missing` is redis.Nil.
pub data Reply (A : Type 0) : Type 0 where
  value : A → Reply A
  missing : Reply A
  failed : String → Reply A

-- GET, SET with a time to live, SET with NX, DEL, and the counting of an operation
pub record Client (R : Type 0) : Type 0 where
  pub get : String → R → Reply String × R
  pub set : String → String → ℤ → R → Result (Unit {0}) × R
  pub set_nx : String → String → ℤ → R → Reply String × R
  pub del : String → R → Result (Unit {0}) × R
  pub metric : String → Bool → R → R

pub record Json : Type 0 where
  pub write_session : Session → Result String
  pub read_session : String → Result Session
  pub write_pkce : PkceState → Result String
  pub read_pkce : String → Result PkceState

-- Between two commands nothing expires. A command that fails may have had its effect or not, but
-- only on its own key.
pub record ClientLaws {R : Type 0} (client : Client R) : Type 0 where
  pub contents : R → String → Option String
  pub get-value : (k v : String) (s : R) → (client.get k s).0 ≡ value v → contents s k ≡ some v
  pub get-missing : (k : String) (s : R) → (client.get k s).0 ≡ missing → contents s k ≡ none
  pub contents-get : (k j : String) (s : R) → contents (client.get k s).1 j ≡ contents s j
  pub contents-set :
      (k v : String) (ttl : ℤ) (s : R)
      → (client.set k v ttl s).0 ≡ ok tt
      → contents (client.set k v ttl s).1 k ≡ some v
  pub set-elsewhere :
      (k v j : String) (ttl : ℤ) (s : R)
      → (k == j) ≡ false
      → contents (client.set k v ttl s).1 j ≡ contents s j
  pub set_nx-value :
      (k v reply : String) (ttl : ℤ) (s : R)
      → (client.set_nx k v ttl s).0 ≡ value reply
      → (reply ≡ "OK") × (contents s k ≡ none) × (contents (client.set_nx k v ttl s).1 k ≡ some v)
  pub set_nx-taken :
      (k v old : String) (ttl : ℤ) (s : R)
      → contents s k ≡ some old
      → contents (client.set_nx k v ttl s).1 k ≡ some old
  pub set_nx-elsewhere :
      (k v j : String) (ttl : ℤ) (s : R)
      → (k == j) ≡ false
      → contents (client.set_nx k v ttl s).1 j ≡ contents s j
  pub contents-del :
      (k : String) (s : R) → (client.del k s).0 ≡ ok tt → contents (client.del k s).1 k ≡ none
  pub del-elsewhere :
      (k j : String) (s : R) → (k == j) ≡ false → contents (client.del k s).1 j ≡ contents s j
  pub contents-metric :
      (op : String) (good : Bool) (j : String) (s : R)
      → contents (client.metric op good s) j ≡ contents s j

-- What was written is read; the claims come back in the dynamic types of decoded JSON.
pub record JsonLaws (json : Json) : Type 0 where
  pub kept : Claims → Claims
  pub read-write_session :
      (sess : Session) (text : String)
      → json.write_session sess ≡ ok text
      → json.read_session text ≡ ok (record sess { claims = kept sess.claims })
  pub read-write_pkce :
      (p : PkceState) (text : String) → json.write_pkce p ≡ ok text → json.read_pkce text ≡ ok p
