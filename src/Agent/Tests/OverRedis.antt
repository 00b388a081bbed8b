-- ===== src/Agent/Tests/OverRedis.antt =====
-- A client over a dictionary, and a codec for the sessions and logins with one field of interest.
use authsentinel.Base.{
  ◌≡◌, refl, false, ◌&&◌, String, Option, none, some, Result, ok, err, ℤ, pos, negsuc, Dict, lookup,
  insert, delete, lookup-insert, lookup-inserted, lookup-delete, lookup-deleted, arith, eq_iff,
  if◌then◌else◌, ◌==◌, zero, suc,
}
use authsentinel.Agent.Config.{key_layout}
use authsentinel.Agent.Deps.{Deps}
use authsentinel.Agent.Tests.{config, deps, outside, no_url}
use authsentinel.Base.{ℕ}
use authsentinel.Agent.Deps.Spec.{StoreSpec, Slot, Item}
use authsentinel.Redis.{redis_stores}
use authsentinel.Redis.Protocol.{Reply, value, missing, Client, Json, ClientLaws, JsonLaws}
use authsentinel.Redis.Refines.{seen_in, redis_stores-StoreSpec}
use authsentinel.Session.{Session, PkceState, TenantContext}

abbrev reply : Option String → Reply String
reply none = missing
reply (some v) = value v

abbrev set_once : Option String → String → String → Dict String → Reply String × Dict String
set_once none k v s = (value "OK", insert k v s)
set_once (some _) k v s = (missing, s)

abbrev pub client : Client (Dict String)
client = record {
  get = λ k s. (reply (lookup k s), s);
  set = λ k v _ s. (ok tt, insert k v s);
  set_nx = λ k v _ s. set_once (lookup k s) k v s;
  del = λ k s. (ok tt, delete k s);
  metric = λ _ _ s. s;
}

abbrev pub plain_session : String → Session
plain_session token = record {
  id = "id";
  access_token = token;
  refresh_token = "";
  id_token = "";
  expires_at = pos 0;
  claims = none;
  tenant_context = none;
}

abbrev write_plain : ℤ → Option TenantContext → Session → Result String
write_plain (pos zero) none sess =
    if sess.id == "id" && (sess.refresh_token == "" && sess.id_token == "")
    then ok sess.access_token
    else err "not plain"
write_plain _ _ sess = err "not plain"

abbrev pub plain_login : String → PkceState
plain_login verifier = record {
  state = "s";
  code_verifier = verifier;
  code_challenge = "";
  nonce = "";
  redirect_to = "";
}

abbrev pub json : Json
json = record {
  write_session = λ sess. write_plain sess.expires_at sess.tenant_context sess;
  read_session = λ text. ok (plain_session text);
  write_pkce = λ p.
      if p.state == "s" && (p.code_challenge == "" && (p.nonce == "" && p.redirect_to == ""))
      then ok p.code_verifier
      else err "not plain";
  read_pkce = λ text. ok (plain_login text);
}

reply-value : (o : Option String) (v : String) → reply o ≡ value v → o ≡ some v
reply-value none v h = ground (arith, h)
reply-value (some x) v h = ground (arith, h)

reply-missing : (o : Option String) → reply o ≡ missing → o ≡ none
reply-missing none h = refl
reply-missing (some x) h = ground (arith, h)

set_once-value :
    (o : Option String) (k v r : String) (s : Dict String)
    → (set_once o k v s).0 ≡ value r
    → (r ≡ "OK") × (o ≡ none) × (lookup k (set_once o k v s).1 ≡ some v)
set_once-value none k v r s h = (ground (arith, h), refl, lookup-inserted k v s)
set_once-value (some x) k v r s h = absurd (ground (arith, h))

set_once-taken :
    (o : Option String) (k v old : String) (s : Dict String)
    → o ≡ some old
    → lookup k s ≡ some old
    → lookup k (set_once o k v s).1 ≡ some old
set_once-taken none k v old s h e = absurd (ground (arith, h))
set_once-taken (some x) k v old s h e = e

set_once-elsewhere :
    (o : Option String) (k v j : String) (s : Dict String)
    → (k == j) ≡ false
    → lookup j (set_once o k v s).1 ≡ lookup j s
set_once-elsewhere none k v j s h = ground (arith, lookup-insert k j v s, h)
set_once-elsewhere (some x) k v j s h = refl

write_plain-read :
    (at : ℤ) (tc : Option TenantContext) (sess : Session) (text : String)
    → sess.expires_at ≡ at
    → sess.tenant_context ≡ tc
    → write_plain at tc sess ≡ ok text
    → ◌≡◌ {A = Result Session} (ok (plain_session text)) (ok (record sess { claims = none }))
write_plain-read (pos zero) none sess text e f h =
    ground
      (arith, e, f, h, eq_iff sess.id "id", eq_iff sess.refresh_token "", eq_iff sess.id_token "")
write_plain-read (pos (suc n)) none sess text e f h = ground (arith, h)
write_plain-read (pos n) (some tc) sess text e f h = ground (arith, h)
write_plain-read (negsuc n) tc sess text e f h = ground (arith, h)

client_laws : ClientLaws client
client_laws = record {
  contents = λ s k. lookup k s;
  get-value = λ k v s h. reply-value (lookup k s) v h;
  get-missing = λ k s h. reply-missing (lookup k s) h;
  contents-get = λ k j s. refl;
  contents-set = λ k v ttl s h. lookup-inserted k v s;
  set-elsewhere = λ k v j ttl s h. ground (arith, lookup-insert k j v s, h);
  set_nx-value = λ k v r ttl s h. set_once-value (lookup k s) k v r s h;
  set_nx-taken = λ k v old ttl s h. set_once-taken (lookup k s) k v old s h h;
  set_nx-elsewhere = λ k v j ttl s h. set_once-elsewhere (lookup k s) k v j s h;
  contents-del = λ k s h. lookup-deleted k s;
  del-elsewhere = λ k j s h. ground (arith, lookup-delete k j s, h);
  contents-metric = λ op good j s. refl;
}

json_laws : JsonLaws json
json_laws = record {
  kept = λ _. none;
  read-write_session =
      λ sess text h. write_plain-read sess.expires_at sess.tenant_context sess text refl refl h;
  read-write_pkce = λ p text h. ground (
    arith,
    h,
    eq_iff p.state "s",
    eq_iff p.code_challenge "",
    eq_iff p.nonce "",
    eq_iff p.redirect_to "",
  );
}

pub redis_view : Dict String → Slot → Option Item
redis_view = seen_in client json config client_laws json_laws

pub redis_spec : StoreSpec (redis_stores client json (key_layout config)) (λ _. none) redis_view
unfolding client_laws json_laws redis_view
redis_spec = redis_stores-StoreSpec client json config client_laws json_laws

redis_stores-StoreSpec_example :
    StoreSpec
      (redis_stores client json (key_layout config))
      (λ _. none)
      (seen_in client json config client_laws json_laws)
unfolding client_laws json_laws
redis_stores-StoreSpec_example = redis_stores-StoreSpec client json config client_laws json_laws

abbrev redis_deps : Deps (Dict String) ℕ
redis_deps = record {
  stores = redis_stores client json (key_layout config);
  outside = outside;
  cookie = deps.cookie;
  url_parse = no_url;
}
