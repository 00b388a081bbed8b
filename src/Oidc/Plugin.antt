-- ===== src/Oidc/Plugin.antt =====
-- pkg/plugins/provider/oidc/oidc.go: the provider plugin over the client.
use authsentinel.Base.{
  Bool, ◌||◌, String, List, [], ◌∷◌, Option, none, some, Result, ok, err, eqb, if◌then◌else◌, ◌==◌,
}
use Prim.Native.Char.{Char, code}
use authsentinel.Agent.Deps.{ProviderTokens}
use authsentinel.Agent.Flow.{World}
use authsentinel.Oidc.{
  OidcDeps, Client, TokenResponse, new_client, auth_url, exchange, refresh, end_session_url,
}
use authsentinel.Value.{Value, Values, str, arr, null, nil, cons}

pub record Config : Type 0 where
  pub issuer : String
  pub client_id : String
  pub client_secret : String
  pub redirect_uri : String
  pub scopes : List String
  pub claims_source : String
  pub audience : String

-- A blank, a comma, a line break or a tab
abbrev is_separator : Char → Bool
is_separator c = eqb (code c) 32 || eqb (code c) 44 || (eqb (code c) 10 || eqb (code c) 9)

-- The field that a text begins with is put before the others, unless it is empty.
abbrev with_field : String → List String → List String
with_field word rest = if word == "" then rest else word ∷ rest

-- strings.FieldsFunc: the first field, as far as it has been read, and the later ones
fields_from : String → String × List String
fields_from String.[] = ("", [])
fields_from (String.◌∷◌ c s) =
    let (word, rest) = fields_from s in
    if is_separator c then ("", with_field word rest) else (String.◌∷◌ c word, rest)

unfoldable pub fields_func : String → List String
unfolding fields_from
fields_func s = let (word, rest) = fields_from s in with_field word rest

abbrev add_string : Value → Result (List String) → Result (List String)
add_string (str s) (ok xs) = ok (s ∷ xs)
add_string null (ok xs) = ok ("" ∷ xs)
add_string _ (ok xs) = err "json: cannot unmarshal into a string"
add_string _ (err e) = err e

abbrev string_list : Values → Result (List String)
string_list nil = ok []
string_list (cons v vs) = add_string v (string_list vs)

-- Scopes.UnmarshalJSON, of parsed JSON
unfoldable pub scopes_of : Value → Result (List String)
unfolding fields_func
scopes_of (str s) = ok (fields_func s)
scopes_of (arr vs) = string_list vs
scopes_of null = ok []
scopes_of _ = err "json: cannot unmarshal into a list of strings"

abbrev scopes_or_default : List String → List String
scopes_or_default [] = "openid" ∷ "profile" ∷ []
scopes_or_default (s ∷ ss) = s ∷ ss

-- Configure, after decoding: the plugin's client, or an error
unfoldable pub configure : Config → Result Client
unfolding new_client
configure cfg =
    if cfg.issuer == "" || cfg.client_id == "" || cfg.redirect_uri == ""
    then err "oidc provider: issuer, client_id, redirect_uri are required"
    else ok (
        new_client cfg.issuer cfg.client_id cfg.client_secret cfg.redirect_uri
          (some (scopes_or_default cfg.scopes)) cfg.audience)

module _ {X : Type 0} (d : OidcDeps X) where
  -- A call of the client, where the plugin has one
  abbrev pub PluginWorld : Type 0
  PluginWorld = World (Option Client) X

  abbrev put_back : {A : Type 0} → Result A × World Client X → Result A × PluginWorld
  put_back (r, w) = (r, record { store = some w.store; env = w.env })

  abbrev pub with_client :
      {A : Type 0}
      → (World Client X → Result A × World Client X)
      → Option Client
      → X
      → Result A × PluginWorld
  with_client f none x = (err "oidc provider: not configured", record { store = none; env = x })
  with_client f (some c) x = put_back (f (record { store = c; env = x }))

  abbrev tokens : Result TokenResponse × PluginWorld → Result ProviderTokens × PluginWorld
  tokens (err e, w) = (err e, w)
  tokens (ok t, w) = (
    ok (record {
      access_token = t.access_token;
      refresh_token = t.refresh_token;
      id_token = t.id_token;
      expires_in = t.expires_in;
    }),
    w,
  )

  unfoldable pub plugin_authorization_url :
      String → String → String → PluginWorld → Result String × PluginWorld
  plugin_authorization_url state challenge nonce w =
      with_client (auth_url d state challenge nonce) w.store w.env

  -- The redirect URI is that of the configuration, whatever is asked for.
  unfoldable pub plugin_exchange_code :
      String → String → String → PluginWorld → Result ProviderTokens × PluginWorld
  plugin_exchange_code code verifier redirect_uri w =
      tokens (with_client (exchange d code verifier) w.store w.env)

  unfoldable pub plugin_refresh : String → PluginWorld → Result ProviderTokens × PluginWorld
  plugin_refresh token w = tokens (with_client (refresh d token) w.store w.env)

  unfoldable pub plugin_end_session_url :
      String → String → PluginWorld → Result String × PluginWorld
  plugin_end_session_url hint target w = with_client (end_session_url d hint target) w.store w.env
