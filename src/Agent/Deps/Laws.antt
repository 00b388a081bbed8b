-- ===== src/Agent/Deps/Laws.antt =====
-- What the agent relies on in a session store and in a cookie manager. A store may give a session
-- back in another form, `kept`, as it does when it keeps JSON: the claims may then have other dynamic
-- types, but the rest of the session is the same.
use authsentinel.Base.{◌≡◌, String, none, some, ok, ℤ}
use authsentinel.Agent.Deps.{Stores, CookieManager}
use authsentinel.Session.{Session}
use authsentinel.Value.{Claims}

-- A session that was written is there when it is read right away.
pub record SessionLaws {S : Type 0} (stores : Stores S) : Type 0 where
  pub kept : Claims → Claims
  pub get-set :
      (k : String) (sess : Session) (ttl : ℤ) (s s' : S)
      → stores.session_set k sess ttl s ≡ (ok tt, s')
      → (stores.session_get k s').0 ≡ ok (some (record sess { claims = kept sess.claims }))

-- A cookie value is read back by the manager that made it.
pub record CookieLaws (cookie : CookieManager) : Type 0 where
  pub decode-encode_law :
      (id value : String) → cookie.encode id ≡ ok value → cookie.decode value ≡ ok id

-- A PKCE state that was deleted is gone, and storing a session does not bring one back. This is the
-- store without faults: the agent does not look at the result of the deletion.
pub record PkceLaws {S : Type 0} (stores : Stores S) : Type 0 where
  pub get-delete : (k : String) (s : S) → (stores.pkce_get k (stores.pkce_delete k s).1).0 ≡ ok none
  pub get-session_set :
      (k id : String) (sess : Session) (ttl : ℤ) (s : S)
      → (stores.pkce_get k (stores.session_set id sess ttl s).1).0 ≡ (stores.pkce_get k s).0
