-- ===== src/Gateways.antt =====
-- The handlers of pkg/plugins/caddy, pkg/plugins/traefik and pkg/plugins/krakend: the engine's response
-- at a gateway. Cookies of the response are left out, as the engine sets none; neither RequestFromHTTP
-- nor the engine's Handle ever returns an error.
pub mod Handed
mod Tests
use authsentinel.Base.{
  Bool, not, ◌||◌, String, List, [], ◌∷◌, any, Dict, is_empty, if◌then◌else◌, ◌==◌,
}
use authsentinel.Proxy.Http.{
  Header, Outcome, write_response, set_upstream, outgoing_headers, upstream_of,
}
use authsentinel.Proxy.Types.{Response}
use authsentinel.Text.{has_prefix, to_lower}

-- A denial, a call of the next handler for the request as it came, with headers on the response, a
-- request to the upstream with headers on the response to the client, or a bare 200.
pub data Handoff : Type 0 where
  denied : Outcome → Handoff
  next_called : Header → Handoff
  to_upstream : Header → Header → Handoff
  bare_ok : Header → Handoff

-- The names that filterHeaders keeps
unfoldable pub forwarded : List String → String → Bool
unfolding to_lower has_prefix
forwarded allow_list name =
    if is_empty allow_list
    then has_prefix (to_lower name) "x-" || to_lower name == "authorization"
    else any (λ h. to_lower h == to_lower name) allow_list

unfoldable pub filter_headers : Dict String → List String → Dict String
unfolding forwarded
filter_headers [] allow_list = []
filter_headers ((k, v) ∷ rest) allow_list =
    let later = filter_headers rest allow_list in
    if forwarded allow_list k then (k, v) ∷ later else later

module _ (canonical : String → String) (has_next : Bool) (upstream_url : String)
    (client : Header) where
  unfoldable pub hand_off : Dict String → Response → Handoff
  unfolding write_response set_upstream outgoing_headers
  hand_off shown resp =
      let h = set_upstream canonical shown [] in
      if not resp.allow
      then denied (write_response resp)
      else if has_next
      then next_called h
      else if not (upstream_url == "")
      then to_upstream h (outgoing_headers canonical client (upstream_of resp.upstream_headers))
      else bare_ok h

  abbrev pub caddy_handler : Response → Handoff
  caddy_handler resp = hand_off (upstream_of resp.upstream_headers) resp

  abbrev pub krakend_handler : Response → Handoff
  krakend_handler resp = hand_off (upstream_of resp.upstream_headers) resp

  unfoldable pub traefik_handler : List String → Response → Handoff
  unfolding filter_headers hand_off
  traefik_handler auth_response_headers resp =
      hand_off (filter_headers (upstream_of resp.upstream_headers) auth_response_headers) resp
