-- ===== src/Cookie/Model.antt =====
-- pkg/cookie/model.go, options.go and codec.go: the session cookie's policy, what is handed to
-- http.SetCookie, and SignedCodec and the Set and Clear methods of signed.go.
use authsentinel.Base.{Bool, true, String, Result, ℤ, pos, negsuc}
use authsentinel.Agent.Config.{SameSite, lax}
use authsentinel.Cookie.{SignedManager, Coding, encode, decode}
use authsentinel.Text.{text_or}

pub record CookieOptions : Type 0 where
  pub path : String
  pub domain : String
  pub secure : Bool
  pub http_only : Bool
  pub same_site : SameSite
  pub max_age : ℤ

pub record OutCookie : Type 0 where
  pub name : String
  pub value : String
  pub options : CookieOptions

pub record SessionCookieConfig : Type 0 where
  pub name : String
  pub domain : String
  pub path : String
  pub max_age : ℤ
  pub secure : Bool
  pub http_only : Bool
  pub same_site : SameSite

abbrev pub options : SessionCookieConfig → CookieOptions
options c = record {
  path = text_or "/" c.path;
  domain = c.domain;
  secure = c.secure;
  http_only = c.http_only;
  same_site = c.same_site;
  max_age = c.max_age;
}

abbrev pub default_session_cookie_config : String → SessionCookieConfig
default_session_cookie_config name = record {
  name = name;
  domain = "";
  path = "/";
  max_age = pos 0;
  secure = true;
  http_only = true;
  same_site = lax;
}

-- WriteOutCookie: the cookie that it sets
abbrev pub write_out_cookie : OutCookie → OutCookie
write_out_cookie c = record c { options = record c.options { path = text_or "/" c.options.path } }

-- SignedManager.Set
abbrev pub set : String → String → CookieOptions → OutCookie
set name value opts = record {
  name = name;
  value = value;
  options = record opts { path = text_or "/" opts.path };
}

-- SignedManager.Clear
abbrev pub clear : String → CookieOptions → OutCookie
clear name opts = record {
  name = name;
  value = "";
  options = record opts { path = text_or "/" opts.path; max_age = negsuc 0 };
}

-- Codec
pub record Codec : Type 0 where
  pub encode_id : String → Result String
  pub decode_id : String → Result String

-- NewSignedCodec
abbrev pub new_signed_codec : Coding → SignedManager → Codec
new_signed_codec c m = record { encode_id = encode c m; decode_id = decode c m }
