-- ===== src/Sdk/Tests.antt =====
-- The SDK's client at the agent of the small stores.
use Prim.Native.Char.{Char, code}
use Prim.Native.String.{char_at}
use text.Mathlib.TextLemmas.{nil-append, cons-append}
use authsentinel.Base.{
  subst, Bool-cases, inl, inr, eq_iff, sym, ap, ◌∙◌, arith, leb, eqb, ◌&&◌, not, false, ◌≡◌, refl,
  ℕ, String, [], ◌∷◌, Option, none, some, ok, lookup, true, err, if◌then◌else◌, ◌==◌,
}
use authsentinel.Agent.Login.{login_start}
use authsentinel.Agent.Refresh as Refresh
use authsentinel.Agent.Server.{serve, started}
use authsentinel.Agent.Server.Composed.{agent_server}
use authsentinel.Agent.Server.Http.{Request}
use authsentinel.Agent.Tests.{Store, config, deps, world}
use authsentinel.Agent.Flow.{World}
use authsentinel.Sdk.Grpc.{unauthenticated, unary_server_interceptor, bearer_token}
use authsentinel.Cookie.Encrypt.{drop}
use authsentinel.Sdk.{
  AgentClient, refresh, client_base, middleware, unauthorized, get_login_url, redirect_query,
}
use authsentinel.Sdk.Agent.{Wire, Asks, letters, client, or_blank, told, refresh-told}
use authsentinel.Sdk.Agent.Links.{Arrives, get_login_url-login_start}
use authsentinel.Text.Laws.{strip-append}
use authsentinel.Text.{◌+s◌, trim_space, to_lower, has_prefix, strip, cut, trim_suffix}

-- A request as net/http brings it, with a Host and a User-Agent
abbrev arrived : String → String → String → Request
arrived path value target = record {
  method = "GET";
  path = path;
  host = "agent";
  query = λ k. or_blank (lookup k (redirect_query target));
  form_value = λ k. or_blank (lookup k (redirect_query target));
  header = λ name. if name == "User-Agent" then "Go-http-client/1.1" else "";
  cookie = λ name. if config.cookie_name == name && not (value == "") then some value else none;
  patch_body = err "no body";
}

abbrev at_parts : String → String → Option (String × String) → Request
at_parts target value none = arrived target value ""
at_parts target value (some (path, query)) = arrived path value query

abbrev wire : Wire
wire = record {
  browse = λ url cookie.
      let target = or_blank (strip "http://agent" url) in
      at_parts target (or_blank (strip "session=" (or_blank cookie))) (cut b'?' target);
  body_text = λ _. "";
  decode = λ _. err "no json";
  encode = λ q. or_blank (lookup "redirect_to" q);
}

letter-apart : (n : ℕ) → (leb 97 n && leb n 122) ≡ true → eqb n b'?' ≡ false
letter-apart n h = ground arith

letters-first :
    (c : Char) (s : String)
    → letters (String.◌∷◌ c s) ≡ true
    → (eqb (code c) b'?' ≡ false) × (letters s ≡ true)
unfolding letters
letters-first c s h = (ground arith, ground arith)

cut-letters :
    (name : String)
    → letters name ≡ true
    → ((cut b'?' name ≡ none) × ((q : String) → cut b'?' (name +s "?" +s q) ≡ some (name, q)))
unfolding cut
cut-letters String.[] h =
    (refl, λ q. rw (nil-append ("?" +s q), cons-append (char_at "?" 0) "" q, nil-append q) refl)
cut-letters (String.◌∷◌ c s) h =
    let (apart, rest) = letters-first c s h in
    let (none_in, some_in) = cut-letters s rest in
    (
      ground (arith, apart, none_in),
      λ q. rw (cons-append c s ("?" +s q)) (ground (arith, apart, some_in q)),
    )

slash : (s : String) → "/" +s s ≡ String.◌∷◌ (char_at "/" 0) s
slash s = cons-append (char_at "/" 0) "" s ∙ ap (String.◌∷◌ (char_at "/" 0)) (nil-append s)

-- The parts of the path with and without a query
target-parts :
    (name : String)
    → letters name ≡ true
    → (cut b'?' ("/" +s name) ≡ none)
      × ((q : String) → cut b'?' (("/" +s name) +s "?" +s q) ≡ some ("/" +s name, q))
unfolding cut
target-parts name h =
    let (none_in, some_in) = cut-letters name h in
    (
      ap (cut b'?') (slash name) ∙ ground (arith, none_in),
      λ q.
          ap (cut b'?')
            (ap (λ x. x +s "?" +s q) (slash name) ∙ cons-append (char_at "/" 0) name ("?" +s q))
          ∙ ground (arith, some_in q, slash name),
    )

arrived-Asks :
    (path value target : String)
    → Asks config path value (redirect_query target) (arrived path value target)
arrived-Asks path value target = record {
  method_is = refl;
  path_is = refl;
  value_is = elim (Bool-cases (value == "")) [
    | inl empty ↦ rw empty (sym ((eq_iff value "").0 empty))
    | inr given ↦ rw given refl
  ];
  query_is = λ k. refl;
  form_is = λ k. refl;
}

abbrev same : Request → String → String
same _ target = target

grpc_test :
    (unary_server_interceptor {E = ℕ} (λ raw s. (err raw, s)) (some (" Bearer  t1 " ∷ [])) 0).0
    ≡ unauthenticated "invalid token: t1"
unfolding unary_server_interceptor bearer_token drop trim_space to_lower has_prefix
grpc_test = refl

middleware_test : middleware true (ok none) ≡ unauthorized
middleware_test = refl

abbrev app : AgentClient (World Store ℕ)
app = client deps config none none same wire "http://agent/"

wire-bare :
    (name : String)
    → letters name ≡ true
    → Asks config
        ("/" +s name)
        "id1"
        []
        (wire.browse (client_base "http://agent/" +s "/" +s name) (some "session=id1"))
unfolding strip trim_suffix client_base lookup
wire-bare name h =
    rw (strip-append "http://agent" ("/" +s name), (target-parts name h).0)
      (arrived-Asks ("/" +s name) "id1" "")

wire-Arrives :
    (target : String)
    → (target == "") ≡ false
    → Arrives deps config none none same wire "http://agent/" (redirect_query target) none ""
unfolding strip trim_suffix client_base lookup
wire-Arrives target given name h =
    let query : redirect_query target ≡ ("redirect_to", target) ∷ [] = rw given refl in
    rw (strip-append "http://agent" _, given, (target-parts name h).1 target)
      (subst (λ q. Asks config ("/" +s name) "" q (arrived ("/" +s name) "" target)) query
        (arrived-Asks ("/" +s name) "" target))

refresh-told_example : refresh app "id1" world ≡ (
  ok (told config (Refresh.refresh deps config "id1" world).0),
  (Refresh.refresh deps config "id1" world).1,
)
unfolding strip cut trim_suffix client_base lookup
refresh-told_example =
    refresh-told deps config none none same wire "http://agent/" "id1" world wire-bare

abbrev login_page : Request
login_page = wire.browse (get_login_url app "/inbox") none

get_login_url-login_start_example :
    serve (agent_server deps config none none same) login_page world ≡ (
      started
          (agent_server deps config none none same)
          login_page
          (login_start deps config "/inbox" world).0,
      (login_start deps config "/inbox" world).1,
    )
unfolding strip cut trim_suffix client_base lookup
get_login_url-login_start_example =
    get_login_url-login_start deps config none none same wire "http://agent/" "/inbox" world
      (wire-Arrives "/inbox" refl)
