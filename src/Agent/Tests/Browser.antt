-- ===== src/Agent/Tests/Browser.antt =====
-- Browser sessions over the Redis stores, with cookies signed before a change of secrets.
use authsentinel.Base.{
  ◌≡◌, refl, inl, inr, String, [], ◌∷◌, Option, none, some, ok, pos, Dict, lookup, insert,
  ne_of_==-false, if◌then◌else◌, ◌==◌, Option-cases,
}
use authsentinel.Agent.Config.{key_layout}
use authsentinel.Agent.Deps.Spec.{Available}
use authsentinel.Agent.Tests.{config}
use authsentinel.Agent.Tests.OverRedis.{
  client, json, redis_view, redis_spec, plain_session, plain_login,
}
use authsentinel.Cookie.{decode, encode}
use authsentinel.Cookie.Model.{SessionCookieConfig, default_session_cookie_config}
use authsentinel.Cookie.Tests.{
  plain, escape, unescape-escape, escape-Lacks, unescape, old_keys, new_keys,
}
use authsentinel.Redis.{
  redis_stores, get_session, set_session, delete_session, get_pkce, delete_pkce,
}
use authsentinel.Session.{session_key, pkce_key, default_key_layout}
use authsentinel.Session.Browser.Resolves.{
  manager, start_session-resolve_session, end_session-resolve_session,
}
use authsentinel.Session.Browser.{start_session, resolve_session, end_session}

redis_answers : Available (redis_stores client json (key_layout config))
unfolding get_session get_pkce delete_pkce
redis_answers = record {
  session_answer = λ k s. elim (Option-cases (lookup (session_key (key_layout config) k) s)) [
    | inl gone ↦ (none, rw gone refl)
    | inr (text, there) ↦ (some (plain_session text), rw there refl)
  ];
  login_answer = λ k s. elim (Option-cases (lookup (pkce_key (key_layout config) k) s)) [
    | inl gone ↦ (none, rw gone refl)
    | inr (text, there) ↦ (some (plain_login text), rw there refl)
  ];
  deletes = λ k s. refl;
}

abbrev policy : SessionCookieConfig
policy = default_session_cookie_config "sid"

abbrev sent : String → String → Option String
sent value name = if name == "sid" then some value else none

abbrev id_cookie : String
id_cookie = "bibd.bkb1bbbibbbd"

abbrev kept_in : Dict String
kept_in = ("auth:session:id", "at") ∷ []

start_session-resolve_session_example :
    ("sid" ≡ policy.name)
    × ((resolve_session
          (manager
            (redis_stores client json (key_layout config))
            plain
            policy
            default_key_layout
            new_keys)
          (sent id_cookie)
          kept_in).0
        ≡ ok (some (plain_session "at")))
unfolding start_session get_session set_session session_key encode escape insert key_layout
start_session-resolve_session_example =
    start_session-resolve_session (redis_stores client json (key_layout config)) (λ _. none)
      redis_view redis_spec redis_answers plain policy default_key_layout old_keys new_keys
      (plain_session "at") (pos 60) [] kept_in _ (sent id_cookie) unescape-escape escape-Lacks
      (inr (inl refl)) (ne_of_==-false "id" "" refl) refl refl

end_session-resolve_session_example :
    let m =
      manager
        (redis_stores client json (key_layout config))
        plain
        policy
        default_key_layout
        new_keys in
    (resolve_session m (sent id_cookie) (end_session m (sent id_cookie) kept_in).2).0 ≡ ok none
unfolding decode unescape delete_session
end_session-resolve_session_example =
    end_session-resolve_session (redis_stores client json (key_layout config)) (λ _. none)
      redis_view redis_spec redis_answers plain policy default_key_layout new_keys (sent id_cookie)
      id_cookie "id" kept_in refl (ne_of_==-false id_cookie "" refl) refl
      (ne_of_==-false "id" "" refl) refl
