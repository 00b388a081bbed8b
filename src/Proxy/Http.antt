-- ===== src/Proxy/Http.antt =====
-- pkg/proxy/http.go, pkg/proxy/normalize.go and pkg/proxy/middleware.go. The header names of an
-- http.Header are canonical; `canonical` stands for textproto.CanonicalMIMEHeaderKey.
pub mod Forward
pub mod Reached
pub mod Identified
use authsentinel.Base.{
  zero, suc, Bool, true, false, ◌&&◌, not, String, List, [], ◌∷◌, Option, none, some, ℤ, pos, Dict,
  lookup, insert, if◌then◌else◌, ◌==◌,
}
use authsentinel.Proxy.Types.{Request, Response}
use authsentinel.Text.{◌+s◌, has_suffix, trim_prefix, trim_suffix, to_lower, cut_last}

abbrev or_blank : Option String → String
or_blank none = ""
or_blank (some s) = s

-- m[k] of a map[string]string
abbrev pub header : String → Dict String → String
header k h = or_blank (lookup k h)

abbrev or_then : String → String → String
or_then s t = if s == "" then t else s

abbrev service_of : Option (String × String) → String × String
service_of none = ("", "")
service_of (some parts) = parts

-- The two parts of ":path", behind its first "/"
unfoldable pub grpc_path : Dict String → String × String
unfolding lookup trim_prefix cut_last
grpc_path h =
    if header ":path" h == ""
    then ("", "")
    else service_of (cut_last b'/' (trim_prefix (header ":path" h) "/"))

-- `operation_name` decodes operationName from a JSON body, "" if there is none.
module _ (operation_name : String → String) where
  unfoldable pub normalize_request :
      String → String → String → Dict String → Dict String → String → Request
  unfolding lookup grpc_path
  normalize_request protocol method path headers cookies body =
      let svc = header "X-Grpc-Service" headers in
      let meth = header "X-Grpc-Method" headers in
      let named = svc == "" && meth == "" in
      record {
        protocol = protocol;
        method = method;
        path = path;
        headers = headers;
        cookies = cookies;
        body = body;
        graphql_operation =
            or_then (header "X-Apollo-Operation-Name" headers)
              (if body == "" then "" else operation_name body);
        grpc_service = if named then (grpc_path headers).0 else svc;
        grpc_method = if named then (grpc_path headers).1 else meth;
      }

unfoldable pub single_joining_slash : String → String → String
unfolding trim_suffix trim_prefix
single_joining_slash a b =
    let a' = trim_suffix a "/" in
    let b' = trim_prefix b "/" in
    if a' == "" then "/" +s b' else if b' == "" then a' else a' +s "/" +s b'

-- The values of an http.Header, by canonical name
abbrev pub Header : Type 0
Header = Dict (List String)

-- The copy of the client's headers, without cookies
unfoldable pub client_headers : Header → Header
unfolding to_lower insert
client_headers [] = []
client_headers ((k, v) ∷ rest) =
    let copied = client_headers rest in if to_lower k == "cookie" then copied else insert k v copied

-- `outReq.Header.Set(k, v)` for each upstream header, of which the first in the list is set last. Go
-- ranges over the map in an order of its own, which the list stands for; it tells only where two names
-- are equal in canonical form.
unfoldable pub set_upstream : (String → String) → Dict String → Header → Header
unfolding insert
set_upstream canonical [] h = h
set_upstream canonical ((k, v) ∷ rest) h =
    insert (canonical k) (v ∷ []) (set_upstream canonical rest h)

-- The headers of the request that ProxyToUpstream sends
unfoldable pub outgoing_headers : (String → String) → Header → Dict String → Header
unfolding client_headers set_upstream
outgoing_headers canonical client upstream = set_upstream canonical upstream (client_headers client)

abbrev pub upstream_of : Option (Dict String) → Dict String
upstream_of none = []
upstream_of (some h) = h

abbrev or_200 : ℤ → ℤ
or_200 (pos zero) = pos 200
or_200 (pos (suc n)) = pos (suc n)
or_200 z = z

-- What the middleware does with the engine's response.
pub data Outcome : Type 0 where
  proxied : Header → Outcome
  answered : ℤ → String → Outcome

unfoldable pub write_response : Response → Outcome
write_response resp = answered (or_200 resp.status_code) resp.body

unfoldable pub conclude : (String → String) → String → Header → Response → Outcome
unfolding outgoing_headers write_response
conclude canonical upstream_url client resp =
    if resp.allow && not (upstream_url == "")
    then proxied (outgoing_headers canonical client (upstream_of resp.upstream_headers))
    else write_response resp

-- The route patterns that internal/proxy/httpserver registers for the proxy.
unfoldable pub route_patterns : String → List String
unfolding has_suffix
route_patterns configured =
    let prefix = if configured == "" then "/" else configured in
    if has_suffix prefix "/" then (prefix +s "/") ∷ [] else prefix ∷ (prefix +s "/") ∷ []
