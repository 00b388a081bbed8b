-- ===== src/Agent/Config.antt =====
-- internal/agent/config/config.go. A configuration value reaches the decoders as parsed JSON.
pub mod Valid
pub mod Keys
pub mod Defaults
use authsentinel.Base.{
  zero, suc, Bool, true, false, ◌&&◌, not, String, List, [], ◌∷◌, Result, ok, err, ℤ, pos, any,
  if◌then◌else◌, ◌==◌,
}
use authsentinel.Session.{KeyLayout}
use authsentinel.Text.{◌+s◌, text_or, to_lower, trim_space, split}
use authsentinel.Value.{Value, Values, null, bool, str, arr, nil, cons}

-- http.SameSite, as far as the program sets it
pub data SameSite : Type 0 where
  lax strict none_mode : SameSite

pub record Config : Type 0 where
  pub oidc_issuer : String
  pub oidc_redirect_uri : String
  pub oidc_client_id : String
  pub oidc_client_secret : String
  pub oidc_scopes : List String
  pub oidc_audience : String
  pub oidc_claims_source : String
  pub redis_url : String
  pub session_redis_prefix : String
  pub session_ttl_seconds : ℤ
  pub session_pkce_ttl_seconds : ℤ
  pub session_refresh_lock_ttl_seconds : ℤ
  pub session_refresh_early_seconds : ℤ
  pub cookie_name : String
  pub cookie_signing_secret : String
  pub cookie_secure : Bool
  pub cookie_same_site_str : String
  pub cookie_domain : String
  pub cookie_same_site : SameSite
  pub app_base_url : String
  pub login_error_redirect_path : String
  pub allowed_redirect_origins : List String
  pub allowed_redirect_paths : List String
  pub http_port : String
  pub admin_secret : String
  pub post_login_webhook_url : String
  pub session_enrichment_api : String
  pub cors_allowed_origins : List String
  pub provider_plugin_id : String

abbrev one_of : List String → String → Bool
one_of words s = any (λ w. s == w) words

-- FlexibleBool.UnmarshalJSON; JSON null leaves the zero value
unfoldable pub flexible_bool : Value → Result Bool
unfolding to_lower trim_space
flexible_bool (bool b) = ok b
flexible_bool null = ok false
flexible_bool (str s) =
    let word = to_lower (trim_space s) in
    if one_of ("true" ∷ "1" ∷ "yes" ∷ "y" ∷ []) word
    then ok true
    else if one_of ("false" ∷ "0" ∷ "no" ∷ "n" ∷ []) word
    then ok false
    else err ("invalid flexible bool " +s s)
flexible_bool _ = err "flexible bool: unsupported value"

abbrev keep_trimmed : List String → List String
keep_trimmed [] = []
keep_trimmed (p ∷ ps) =
    let rest = keep_trimmed ps in if trim_space p == "" then rest else trim_space p ∷ rest

-- splitTrim, at the separator ","
unfoldable pub split_trim : String → List String
unfolding split trim_space
split_trim s = if s == "" then [] else keep_trimmed (split b',' s)

abbrev prepend : String → Result (List String) → Result (List String)
prepend s (ok ss) = ok (s ∷ ss)
prepend s (err e) = err e

-- json.Unmarshal into a []string; a null item leaves ""
abbrev all_strings : Values → Result (List String)
all_strings nil = ok []
all_strings (cons (str s) vs) = prepend s (all_strings vs)
all_strings (cons null vs) = prepend "" (all_strings vs)
all_strings (cons _ vs) = err "json: cannot unmarshal"

-- CommaStrings.UnmarshalJSON
unfoldable pub comma_strings : Value → Result (List String)
unfolding split_trim
comma_strings (str s) = ok (split_trim s)
comma_strings (arr vs) = all_strings vs
comma_strings null = ok []
comma_strings _ = err "json: cannot unmarshal"

unfoldable pub parse_same_site : String → SameSite
unfolding to_lower
parse_same_site s =
    if to_lower s == "strict" then strict else if to_lower s == "none" then none_mode else lax

abbrev err_missing : String → Result Config
err_missing name = err ("config: missing " +s name)

abbrev pub or_default : List String → List String → List String
or_default d [] = d
or_default d (x ∷ xs) = x ∷ xs

-- The defaults that Validate fills in
abbrev pub accepted : Config → Config
accepted c = record c {
  oidc_claims_source =
      if not (c.oidc_claims_source == "id_token") && not (c.oidc_claims_source == "access_token")
      then "id_token"
      else c.oidc_claims_source;
  cookie_same_site = parse_same_site c.cookie_same_site_str;
  oidc_scopes = or_default ("openid" ∷ "profile" ∷ []) c.oidc_scopes;
  allowed_redirect_paths = or_default ("/" ∷ []) c.allowed_redirect_paths;
}

-- Validate: the configuration that it leaves, or its error.
unfoldable pub validate : Config → Result Config
validate c =
    if c.oidc_issuer == ""
    then err_missing "OIDC_ISSUER"
    else if c.oidc_redirect_uri == ""
    then err_missing "OIDC_REDIRECT_URI"
    else if c.oidc_client_id == ""
    then err_missing "OIDC_CLIENT_ID"
    else if c.redis_url == ""
    then err_missing "REDIS_URL"
    else if c.cookie_signing_secret == ""
    then err_missing "COOKIE_SIGNING_SECRET"
    else if c.app_base_url == ""
    then err_missing "APP_BASE_URL"
    else ok (accepted c)

unfoldable pub key_layout : Config → KeyLayout
key_layout c =
    let p = if c.session_redis_prefix == "" then "auth" else c.session_redis_prefix in
    record {
      session_prefix = p +s ":session:";
      pkce_prefix = p +s ":pkce:";
      refresh_lock_prefix = p +s ":refresh_lock:";
      revoked_prefix = p +s ":revoked:";
      replay_prefix = p +s ":replay:";
      session_ttl_seconds = c.session_ttl_seconds;
      pkce_ttl_seconds = c.session_pkce_ttl_seconds;
      refresh_lock_ttl_seconds = c.session_refresh_lock_ttl_seconds;
    }

abbrev pub int_or : ℤ → ℤ → ℤ
int_or d (pos zero) = d
int_or d (pos (suc n)) = pos (suc n)
int_or d z = z

unfoldable pub apply_defaults : Config → Config
apply_defaults c = record c {
  oidc_claims_source = text_or "id_token" c.oidc_claims_source;
  session_redis_prefix = text_or "auth" c.session_redis_prefix;
  session_ttl_seconds = int_or (pos 36000) c.session_ttl_seconds;
  session_pkce_ttl_seconds = int_or (pos 300) c.session_pkce_ttl_seconds;
  session_refresh_lock_ttl_seconds = int_or (pos 15) c.session_refresh_lock_ttl_seconds;
  session_refresh_early_seconds = int_or (pos 60) c.session_refresh_early_seconds;
  cookie_name = text_or "__Host-ess_session" c.cookie_name;
  login_error_redirect_path = text_or "/login?error=oidc_error" c.login_error_redirect_path;
  http_port = text_or "8080" c.http_port;
}
