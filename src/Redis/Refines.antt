-- ===== src/Redis/Refines.antt =====
-- The Redis stores are the dictionary that the three store interfaces describe.
use authsentinel.Base.{◌≡◌, ◌≢◌, refl, ap, sym, ◌∙◌, false, String, Option, ◌==◌, ==-false}
use authsentinel.Agent.Config.{Config, key_layout}
use authsentinel.Agent.Config.Keys.{
  Kind, a_session, a_login, a_refresh, key_of, key_layout-distinct,
}
use authsentinel.Agent.Deps.Spec.{
  Slot, session_of, login_of, lock_of, Item, session_item, login_item, as_kept, StoreSpec,
}
use authsentinel.Session.{KeyLayout, session_key, pkce_key, refresh_lock_key}
use authsentinel.Redis.{
  seconds, get_session, set_session, delete_session, get_pkce, set_pkce, delete_pkce,
  obtain_refresh_lock, release_refresh_lock, redis_stores,
}
use authsentinel.Redis.Protocol.{Client, Json, ClientLaws, JsonLaws}
use authsentinel.Redis.Contents.{
  item, write-elsewhere, write-stored, obtained-same, get-same, get-stored, del-stored,
  del-elsewhere, nx-stored, nx-held,
}

abbrev kind_of : Slot → Kind
kind_of (session_of k) = a_session
kind_of (login_of k) = a_login
kind_of (lock_of k) = a_refresh

abbrev id_of : Slot → String
id_of (session_of k) = k
id_of (login_of k) = k
id_of (lock_of k) = k

abbrev slot_key : KeyLayout → Slot → String
slot_key layout x = key_of layout (kind_of x) (id_of x)

abbrev slot_at : Kind → String → Slot
slot_at a_login k = login_of k
slot_at a_refresh k = lock_of k
slot_at _ k = session_of k

slot_at-kind_of : (x : Slot) → slot_at (kind_of x) (id_of x) ≡ x
slot_at-kind_of (session_of k) = refl
slot_at-kind_of (login_of k) = refl
slot_at-kind_of (lock_of k) = refl

slot_key-apart :
    (cfg : Config) (x y : Slot)
    → x ≢ y
    → (slot_key (key_layout cfg) x == slot_key (key_layout cfg) y) ≡ false
slot_key-apart cfg x y h = ==-false _ _ λ e.
    let (kinds, ids) = (key_layout-distinct cfg (kind_of x) (kind_of y) (id_of x) (id_of y)).0 e in
    h (
      sym (slot_at-kind_of x)
      ∙ ap (λ k. slot_at k (id_of x)) kinds
      ∙ ap (slot_at (kind_of y)) ids
      ∙ slot_at-kind_of y)

module _ {R : Type 0} (client : Client R) (json : Json) (cfg : Config) (laws : ClientLaws client)
    (trips : JsonLaws json) where
  abbrev pub seen_in : R → Slot → Option Item
  seen_in s x = item json x (laws.contents s (slot_key (key_layout cfg) x))

  -- Under the configured prefix, the Redis stores are one dictionary of sessions, logins and locks.
  pub redis_stores-StoreSpec :
      StoreSpec (redis_stores client json (key_layout cfg)) trips.kept seen_in
  unfolding get_session set_session delete_session get_pkce set_pkce delete_pkce obtain_refresh_lock
      release_refresh_lock
  redis_stores-StoreSpec =
      let layout = key_layout cfg in
      let apart = slot_key-apart cfg in
      record {
        session_get_lem = λ k s o h.
            ap session_item
              (get-stored client json layout laws _ json.read_session (session_key layout k) s o h);
        session_get_same = λ k s x.
            ap (item json x)
              (get-same client json layout laws _ json.read_session (session_key layout k) _ s);
        session_set_lem = λ k sess ttl s h. ap session_item (
            write-stored client json layout laws json.read_session (as_kept trips.kept sess) _
              (session_key layout k) (json.write_session sess) ttl s (trips.read-write_session sess)
              h);
        session_set_frame = λ k sess ttl s x h. ap (item json x) (
            write-elsewhere client json layout laws _ (session_key layout k) _
              (json.write_session sess) ttl s (apart (session_of k) x h));
        session_delete_lem = λ k s h.
            ap (item json (session_of k))
              (del-stored client json layout laws _ (session_key layout k) s h);
        session_delete_frame = λ k s x h. ap (item json x) (
            del-elsewhere client json layout laws _ (session_key layout k) _ s
              (apart (session_of k) x h));
        pkce_get_lem = λ k s o h.
            ap login_item
              (get-stored client json layout laws _ json.read_pkce (pkce_key layout k) s o h);
        pkce_get_same = λ k s x.
            ap (item json x)
              (get-same client json layout laws _ json.read_pkce (pkce_key layout k) _ s);
        pkce_set_lem = λ k p ttl s h. ap login_item (
            write-stored client json layout laws json.read_pkce p _ (pkce_key layout k)
              (json.write_pkce p) ttl s (trips.read-write_pkce p) h);
        pkce_set_frame = λ k p ttl s x h. ap (item json x) (
            write-elsewhere client json layout laws _ (pkce_key layout k) _ (json.write_pkce p) ttl
              s (apart (login_of k) x h));
        pkce_delete_lem = λ k s h.
            ap (item json (login_of k))
              (del-stored client json layout laws _ (pkce_key layout k) s h);
        pkce_delete_frame = λ k s x h. ap (item json x) (
            del-elsewhere client json layout laws _ (pkce_key layout k) _ s
              (apart (login_of k) x h));
        lock_obtain_lem = λ k ttl s h.
            nx-stored client json layout laws k (refresh_lock_key layout k) (seconds ttl) s h;
        lock_obtain_held = λ k ttl s h.
            nx-held client json layout laws k (refresh_lock_key layout k) (seconds ttl) s
              (laws.contents s (refresh_lock_key layout k)) refl h;
        lock_obtain_frame = λ k ttl s x h.
            let reply = client.set_nx (refresh_lock_key layout k) "1" (seconds ttl) s in
            ap (item json x) (
              obtained-same client json layout laws reply _
              ∙ laws.set_nx-elsewhere (refresh_lock_key layout k) "1" _ (seconds ttl) s
                  (apart (lock_of k) x h));
        lock_release_lem = λ k s h.
            ap (item json (lock_of k))
              (del-stored client json layout laws _ (refresh_lock_key layout k) s h);
        lock_release_frame = λ k s x h. ap (item json x) (
            del-elsewhere client json layout laws _ (refresh_lock_key layout k) _ s
              (apart (lock_of k) x h));
      }
