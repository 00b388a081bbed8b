-- ===== src/Agent/Login/Opened.antt =====
-- A login and the requests that follow it.
use authsentinel.Base.{lookup, refl, ◌≡◌, ap, ◌∙◌, ◌≢◌, String, some, ok, arith, ==-false}
use authsentinel.Agent.Config.{Config}
use authsentinel.Agent.Deps.{Deps}
use authsentinel.Agent.Deps.Laws.{SessionLaws, CookieLaws}
use authsentinel.Agent.Flow.{World, run}
use authsentinel.Agent.Login.{LoginEndRequest, LoginEndResponse, login_end, session_claims}
use authsentinel.Agent.Login.Authenticated.{Authenticated, login_end-Authenticated}
use authsentinel.Agent.Sessions.{tenant_map, Resolved, or_made, resolve, attach_tenant_context}
use authsentinel.Value.{Claims, str, get}
use authsentinel.Session.{Session, TenantContext}

pair_eq : {A B : Type 0} {a a' : A} {b b' : B} → a ≡ a' → b ≡ b' → ◌≡◌ {A = A × B} (a, b) (a', b')
pair_eq e f = ground arith

module _ {S X : Type 0} (d : Deps S X) (cfg : Config) where
  open d use {stores, cookie}

  resolve-stored :
      (session_cookie id : String) (sess : Session) (w : World S X)
      → session_cookie ≢ ""
      → cookie.decode session_cookie ≡ ok id
      → (stores.session_get id w.store).0 ≡ ok (some sess)
      → (resolve d cfg session_cookie w).0
        ≡ ok (record {
          access_token = sess.access_token;
          claims = or_made sess.claims;
          tenant_context = tenant_map sess.tenant_context;
          set_cookie_value = "";
        })
  unfolding resolve run
  resolve-stored session_cookie id sess w given decoded loaded =
      ground (arith, ==-false session_cookie "" given, decoded, loaded)

  attached :
      (id : String) (tc : TenantContext) (sess : Session) (w w' : World S X)
      → (stores.session_get id w.store).0 ≡ ok (some sess)
      → attach_tenant_context d cfg id (some tc) w ≡ (ok tt, w')
      → (s : S) × (stores.session_set id
            (record sess { tenant_context = some tc })
            cfg.session_ttl_seconds
            s
          ≡ (ok tt, w'.store))
  unfolding attach_tenant_context run
  attached id tc sess w w' loaded done = ((stores.session_get id w.store).1, ground arith)

module _ {S X : Type 0} (d : Deps S X) (cfg : Config) (laws : SessionLaws d.stores)
    (cookies : CookieLaws d.cookie) where
  open d use {stores, cookie}

  -- After a login that sets a cookie, the proxy that sends this cookie to the agent obtains the access
  -- token that the provider gave at this login and the claims of the ID token, as the store keeps
  -- them, if the store reads what was written and the cookie manager reads its own cookies.
  pub login_end-resolve :
      (req : LoginEndRequest) (w : World S X) (resp : LoginEndResponse) (w' : World S X)
      → login_end d cfg req w ≡ (ok resp, w')
      → resp.set_cookie_value ≢ ""
      → (a : Authenticated d cfg req w resp w') × ((resolve d cfg resp.set_cookie_value w').0
          ≡ ok (record {
            access_token = a.tokens.access_token;
            claims = or_made (laws.kept (session_claims d cfg a.principal));
            tenant_context = tenant_map a.sess.tenant_context;
            set_cookie_value = "";
          }))
  login_end-resolve req w resp w' h set =
      let a = login_end-Authenticated d cfg req w resp w' h set in
      let stored =
        laws.get-set a.sess.id a.sess cfg.session_ttl_seconds a.before_set w'.store
          a.session_stored in
      let (access, _, claims) = a.keeps_tokens in
      let decoded = cookies.decode-encode_law a.sess.id resp.set_cookie_value a.cookie_encoded in
      (
        a,
        resolve-stored d cfg resp.set_cookie_value a.sess.id _ w' set decoded stored
            ∙ ap
                (λ (x : String × Claims). ok (record {
                  access_token = x.0;
                  claims = or_made (laws.kept x.1);
                  tenant_context = tenant_map a.sess.tenant_context;
                  set_cookie_value = "";
                }))
                (pair_eq access claims),
      )

module _ {S X : Type 0} (d : Deps S X) (cfg : Config) (laws : SessionLaws d.stores) where
  open d use {stores, cookie}

  -- After a tenant context was attached to a session, the proxy is told each of its five fields under
  -- its name, with the access token that the session had, if the store reads what was written.
  pub attach_tenant_context-resolve :
      (session_cookie id : String) (tc : TenantContext) (sess : Session) (w w' : World S X)
      → session_cookie ≢ ""
      → cookie.decode session_cookie ≡ ok id
      → (stores.session_get id w.store).0 ≡ ok (some sess)
      → attach_tenant_context d cfg id (some tc) w ≡ (ok tt, w')
      → (x : Resolved) × ((resolve d cfg session_cookie w').0 ≡ ok x)
        × (x.access_token ≡ sess.access_token)
        × (x.claims ≡ or_made (laws.kept sess.claims))
        × (get "tenant_id" x.tenant_context ≡ some (str tc.tenant_id))
        × (get "tenant_slug" x.tenant_context ≡ some (str tc.tenant_slug))
        × (get "status" x.tenant_context ≡ some (str tc.status))
        × (get "locale" x.tenant_context ≡ some (str tc.locale))
        × (get "timezone" x.tenant_context ≡ some (str tc.timezone))
  unfolding get lookup
  attach_tenant_context-resolve session_cookie id tc sess w w' given decoded loaded done =
      let (s, set) = attached d cfg id tc sess w w' loaded done in
      let told = resolve-stored d cfg session_cookie id _ w' given decoded (
        laws.get-set id (record sess { tenant_context = some tc }) cfg.session_ttl_seconds s
          w'.store set) in
      (_, told, refl, refl, refl, refl, refl, refl, refl)
