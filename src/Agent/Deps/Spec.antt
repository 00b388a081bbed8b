-- ===== src/Agent/Deps/Spec.antt =====
-- The agent's stores as one dictionary: what the three store interfaces of pkg/session/store.go
-- promise. An operation that fails may have had its effect or not, but only on its own slot.
use authsentinel.Base.{
  ◌≡◌, refl, sym, ap, ◌∙◌, ◌≢◌, true, String, Option, none, some, Result, ok, ℤ, arith,
}
use authsentinel.Agent.Deps.{Stores}
use authsentinel.Agent.Deps.Laws.{SessionLaws, PkceLaws}
use authsentinel.Session.{Session, PkceState}
use authsentinel.Value.{Claims}

pub data Slot : Type 0 where
  session_of : String → Slot
  login_of : String → Slot
  lock_of : String → Slot

pub data Item : Type 0 where
  a_session : Session → Item
  a_login : PkceState → Item
  a_lock : Item

abbrev pub session_item : Option Session → Option Item
session_item none = none
session_item (some s) = some (a_session s)

abbrev pub login_item : Option PkceState → Option Item
login_item none = none
login_item (some p) = some (a_login p)

abbrev pub as_kept : (Claims → Claims) → Session → Session
as_kept kept sess = record sess { claims = kept sess.claims }

pub record StoreSpec {S : Type 0} (stores : Stores S) (kept : Claims → Claims)
    (view : S → Slot → Option Item) : Type 0 where
  pub session_get_lem :
      (k : String) (s : S) (o : Option Session)
      → (stores.session_get k s).0 ≡ ok o
      → view s (session_of k) ≡ session_item o
  pub session_get_same :
      (k : String) (s : S) (x : Slot) → view (stores.session_get k s).1 x ≡ view s x
  pub session_set_lem :
      (k : String) (sess : Session) (ttl : ℤ) (s : S)
      → (stores.session_set k sess ttl s).0 ≡ ok tt
      → view (stores.session_set k sess ttl s).1 (session_of k)
        ≡ some (a_session (as_kept kept sess))
  pub session_set_frame :
      (k : String) (sess : Session) (ttl : ℤ) (s : S) (x : Slot)
      → session_of k ≢ x
      → view (stores.session_set k sess ttl s).1 x ≡ view s x
  pub session_delete_lem :
      (k : String) (s : S)
      → (stores.session_delete k s).0 ≡ ok tt
      → view (stores.session_delete k s).1 (session_of k) ≡ none
  pub session_delete_frame :
      (k : String) (s : S) (x : Slot)
      → session_of k ≢ x
      → view (stores.session_delete k s).1 x ≡ view s x
  pub pkce_get_lem :
      (k : String) (s : S) (o : Option PkceState)
      → (stores.pkce_get k s).0 ≡ ok o
      → view s (login_of k) ≡ login_item o
  pub pkce_get_same : (k : String) (s : S) (x : Slot) → view (stores.pkce_get k s).1 x ≡ view s x
  pub pkce_set_lem :
      (k : String) (p : PkceState) (ttl : ℤ) (s : S)
      → (stores.pkce_set k p ttl s).0 ≡ ok tt
      → view (stores.pkce_set k p ttl s).1 (login_of k) ≡ some (a_login p)
  pub pkce_set_frame :
      (k : String) (p : PkceState) (ttl : ℤ) (s : S) (x : Slot)
      → login_of k ≢ x
      → view (stores.pkce_set k p ttl s).1 x ≡ view s x
  pub pkce_delete_lem :
      (k : String) (s : S)
      → (stores.pkce_delete k s).0 ≡ ok tt
      → view (stores.pkce_delete k s).1 (login_of k) ≡ none
  pub pkce_delete_frame :
      (k : String) (s : S) (x : Slot)
      → login_of k ≢ x
      → view (stores.pkce_delete k s).1 x ≡ view s x
  pub lock_obtain_lem :
      (k : String) (ttl : ℤ) (s : S)
      → (stores.lock_obtain k ttl s).0 ≡ ok true
      → (view s (lock_of k) ≡ none)
        × (view (stores.lock_obtain k ttl s).1 (lock_of k) ≡ some a_lock)
  pub lock_obtain_held :
      (k : String) (ttl : ℤ) (s : S)
      → view s (lock_of k) ≡ some a_lock
      → view (stores.lock_obtain k ttl s).1 (lock_of k) ≡ some a_lock
  pub lock_obtain_frame :
      (k : String) (ttl : ℤ) (s : S) (x : Slot)
      → lock_of k ≢ x
      → view (stores.lock_obtain k ttl s).1 x ≡ view s x
  pub lock_release_lem :
      (k : String) (s : S)
      → (stores.lock_release k s).0 ≡ ok tt
      → view (stores.lock_release k s).1 (lock_of k) ≡ none
  pub lock_release_frame :
      (k : String) (s : S) (x : Slot)
      → lock_of k ≢ x
      → view (stores.lock_release k s).1 x ≡ view s x

-- The reads of a store answer, and the deletion of PKCE states succeeds.
pub record Available {S : Type 0} (stores : Stores S) : Type 0 where
  pub session_answer :
      (k : String) (s : S) → (o : Option Session) × ((stores.session_get k s).0 ≡ ok o)
  pub login_answer :
      (k : String) (s : S) → (o : Option PkceState) × ((stores.pkce_get k s).0 ≡ ok o)
  pub deletes : (k : String) (s : S) → (stores.pkce_delete k s).0 ≡ ok tt

session_item_injective :
    (o : Option Session) (sess : Session) → session_item o ≡ some (a_session sess) → o ≡ some sess
session_item_injective none sess h = ground (arith, h)
session_item_injective (some s) sess h = ground (arith, h)

session_item-none : (o : Option Session) → session_item o ≡ none → o ≡ none
session_item-none none h = refl
session_item-none (some s) h = ground (arith, h)

login_item_injective : (o o' : Option PkceState) → login_item o ≡ login_item o' → o ≡ o'
login_item_injective none none h = refl
login_item_injective none (some p) h = ground (arith, h)
login_item_injective (some p) none h = ground (arith, h)
login_item_injective (some p) (some q) h = ground (arith, h)

module _ {S : Type 0} (stores : Stores S) (kept : Claims → Claims) (view : S → Slot → Option Item)
    (spec : StoreSpec stores kept view) (up : Available stores) where
  -- What was written is there when it is read right away.
  pub session_get-session_set :
      (k : String) (sess : Session) (ttl : ℤ) (s s' : S)
      → stores.session_set k sess ttl s ≡ (ok tt, s')
      → (stores.session_get k s').0 ≡ ok (some (as_kept kept sess))
  session_get-session_set k sess ttl s s' h =
      let (o, answer) = up.session_answer k s' in
      let stored : view s' (session_of k) ≡ some (a_session (as_kept kept sess)) =
        ap (λ (t : Result (Unit {0}) × S). view t.1 (session_of k)) (sym h)
        ∙ spec.session_set_lem k sess ttl s (ap (λ r. r.0) h) in
      answer
      ∙ ap ok (
          session_item_injective o (as_kept kept sess)
            (sym (spec.session_get_lem k s' o answer) ∙ stored))

  pub session_get-session_delete :
      (k : String) (s : S)
      → (stores.session_delete k s).0 ≡ ok tt
      → (stores.session_get k (stores.session_delete k s).1).0 ≡ ok none
  session_get-session_delete k s h =
      let s' = (stores.session_delete k s).1 in
      let (o, answer) = up.session_answer k s' in
      answer
      ∙ ap ok (
          session_item-none o
            (sym (spec.session_get_lem k s' o answer) ∙ spec.session_delete_lem k s h))

  -- A store that meets the specification and answers has the laws that a login relies on.
  pub StoreSpec-SessionLaws : SessionLaws stores
  StoreSpec-SessionLaws = record { kept = kept; get-set = session_get-session_set }

  logins_same :
      (k : String) (s s' : S)
      → view s' (login_of k) ≡ view s (login_of k)
      → (stores.pkce_get k s').0 ≡ (stores.pkce_get k s).0
  logins_same k s s' h =
      let (o, answer) = up.login_answer k s in
      let (o', answer') = up.login_answer k s' in
      answer'
      ∙ ap ok (
          login_item_injective o' o
            (sym (spec.pkce_get_lem k s' o' answer') ∙ h ∙ spec.pkce_get_lem k s o answer))
      ∙ sym answer

  pub StoreSpec-PkceLaws : PkceLaws stores
  StoreSpec-PkceLaws = record {
    get-delete = λ k s.
        let s' = (stores.pkce_delete k s).1 in
        let (o, answer) = up.login_answer k s' in
        answer
        ∙ ap ok (
            login_item_injective o none
              (sym (spec.pkce_get_lem k s' o answer) ∙ spec.pkce_delete_lem k s (up.deletes k s)));
    get-session_set = λ k id sess ttl s.
        logins_same k s (stores.session_set id sess ttl s).1
          (spec.session_set_frame id sess ttl s (login_of k) (λ e. ground arith));
  }
