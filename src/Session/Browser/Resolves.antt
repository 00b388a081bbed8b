-- ===== src/Session/Browser/Resolves.antt =====
-- What a browser's session cookie leads to, over a store that meets its specification.

use authsentinel.Base.{
  ◌≡◌, ◌≢◌, refl, sym, ap, ◌∙◌, arith, String, [], ◌∷◌, Option, none, some, ok, ℤ, ◌⊎◌, inl, inr,
  Exists, ==-false, Result-cases, ok_injective,
}
use authsentinel.Agent.Deps.{Stores}
use authsentinel.Agent.Deps.Spec.{
  Slot, Item, StoreSpec, Available, as_kept, session_get-session_set, session_get-session_delete,
}
use authsentinel.Cookie.{SignedManager, Coding, encode, decode}
use authsentinel.Cookie.Model.{OutCookie, SessionCookieConfig, new_signed_codec}
use authsentinel.Cookie.Signed.{decode-encode}
use authsentinel.Session.{Session, KeyLayout}
use authsentinel.Session.Browser.{
  BrowserSessionManager, start_session, resolve_session, end_session, drop_of,
}
use authsentinel.Text.{◌+s◌, cut}
use authsentinel.Text.Laws.{Lacks, cut-append}
use authsentinel.Value.{Claims}

-- A signed value has a dot and is not empty.
encode-given :
    (c : Coding) (m : SignedManager) (id raw : String)
    → ((s : String) → Lacks b'.' (c.encode s))
    → encode c m id ≡ ok raw
    → raw ≢ ""
unfolding encode cut
encode-given c m id raw no_dot h blank =
    let payload = c.encode id in
    let rest = c.encode (c.sign_with m.primary payload) in
    let form : payload +s "." +s rest ≡ "" = ok_injective h ∙ blank in
    let found : cut b'.' "" ≡ some (payload, rest) =
      ap (cut b'.') (sym form) ∙ cut-append payload rest (no_dot id) in
    ground (arith, found)

-- The manager whose codec signs with the secrets of `m`
abbrev pub manager :
    {S : Type 0}
    → Stores S
    → Coding
    → SessionCookieConfig
    → KeyLayout
    → SignedManager
    → BrowserSessionManager S
manager store c config layout m = record {
  store = store;
  codec = new_signed_codec c m;
  cookie_config = config;
  key_layout = layout;
}

module _ {S : Type 0} (store : Stores S) (kept : Claims → Claims) (view : S → Slot → Option Item)
    (spec : StoreSpec store kept view) (up : Available store) (c : Coding)
    (config : SessionCookieConfig) (layout : KeyLayout) where
  resolve_session-at :
      (m : SignedManager) (cookies : String → Option String) (value id : String) (s : S)
      → cookies config.name ≡ some value
      → value ≢ ""
      → decode c m value ≡ ok id
      → id ≢ ""
      → resolve_session (manager store c config layout m) cookies s ≡ store.session_get id s
  unfolding resolve_session
  resolve_session-at m cookies value id s sent given decoded named =
      rw (sent, ==-false value "" given, decoded, ==-false id "" named) refl

  -- A session that was started is what the cookie issued for it leads to, also after the secret that
  -- signed it has been rotated, where base64 is undone by its decoder and has no dot in its output.
  pub start_session-resolve_session :
      (old m : SignedManager) (sess : Session) (ttl : ℤ) (s s' : S) (issued_cookie : OutCookie)
      (cookies : String → Option String)
      → ((t : String) → c.decode (c.encode t) ≡ some t)
      → ((t : String) → Lacks b'.' (c.encode t))
      → (old.primary ≡ m.primary) ⊎ Exists (λ k. old.primary ≡ k) m.older
      → sess.id ≢ ""
      → start_session (manager store c config layout old) (some sess) ttl s
        ≡ (ok tt, issued_cookie ∷ [], s')
      → cookies issued_cookie.name ≡ some issued_cookie.value
      → (issued_cookie.name ≡ config.name)
        × ((resolve_session (manager store c config layout m) cookies s').0
            ≡ ok (some (as_kept kept sess)))
  unfolding start_session
  start_session-resolve_session old m sess ttl s s' issued_cookie cookies inverse no_dot known named
        h sent =
      let done = store.session_set sess.id sess ttl s in
      elim (Result-cases done.0) [
        | inr (e, failed) ↦ ground (arith, failed, h, ==-false sess.id "" named)
        | inl (u, stored) ↦ elim (Result-cases (encode c old sess.id)) [
          | inr (e, failed) ↦ ground (arith, stored, failed, h, ==-false sess.id "" named)
          | inl (value, coded) ↦
              let name : config.name ≡ issued_cookie.name =
                ground (arith, stored, coded, h, ==-false sess.id "" named) in
              let same : value ≡ issued_cookie.value =
                ground (arith, stored, coded, h, ==-false sess.id "" named) in
              let later : done.1 ≡ s' =
                ground (arith, stored, coded, h, ==-false sess.id "" named) in
              let sent' : cookies config.name ≡ some value =
                ap cookies name ∙ sent ∙ ap some (sym same) in
              let reads = decode-encode c old m sess.id value inverse no_dot known coded in
              (
                sym name,
                ap (λ r. r.0)
                      (resolve_session-at m cookies value sess.id s' sent'
                        (encode-given c old sess.id value no_dot coded) reads named)
                    ∙ session_get-session_set store kept view spec up sess.id sess ttl s s'
                        (λ i. (stored i, later i)),
              )
        ]
      ]

  -- After a session was ended, by a delete that succeeded, its cookie leads to no session.
  pub end_session-resolve_session :
      (m : SignedManager) (cookies : String → Option String) (value id : String) (s : S)
      → cookies config.name ≡ some value
      → value ≢ ""
      → decode c m value ≡ ok id
      → id ≢ ""
      → (store.session_delete id s).0 ≡ ok tt
      → (resolve_session
          (manager store c config layout m)
          cookies
          (end_session (manager store c config layout m) cookies s).2).0
        ≡ ok none
  unfolding end_session
  end_session-resolve_session m cookies value id s sent given decoded named gone =
      let s' = (store.session_delete id s).1 in
      let ended : drop_of (manager store c config layout m) (cookies config.name) s ≡ s' =
        rw (sent, ==-false value "" given, decoded, ==-false id "" named) refl in
      ap (λ t. (resolve_session (manager store c config layout m) cookies t).0) ended
      ∙ ap (λ r. r.0) (resolve_session-at m cookies value id s' sent given decoded named)
      ∙ session_get-session_delete store kept view spec up id s gone
