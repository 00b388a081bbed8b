-- ===== src/Proxy/Http/Reached.antt =====
-- From the engine's response to the upstream.
use authsentinel.Base.{◌≡◌, refl, true, String, arith}
use authsentinel.Proxy.Engine.{Engine, handle}
use authsentinel.Proxy.Engine.Allowed.{Allowed, handle-Allowed}
use authsentinel.Proxy.Http.{
  Header, proxied, conclude, outgoing_headers, upstream_of, write_response,
}
use authsentinel.Proxy.Types.{Request, Response}

concluded :
    (canonical : String → String) (upstream_url : String) (client : Header) (resp : Response)
    (h : Header)
    → conclude canonical upstream_url client resp ≡ proxied h
    → (resp.allow ≡ true)
      × (outgoing_headers canonical client (upstream_of resp.upstream_headers) ≡ h)
unfolding conclude write_response
concluded canonical upstream_url client resp h e = ground arith

module _ {E : Type 0} (e : Engine E) (req : Request) where
  -- A request is passed to the upstream only after the engine has let it through, by the decision of a
  -- plugin or of the policy, and with the headers that the engine made for this decision.
  pub conclude-Allowed :
      (canonical : String → String) (upstream_url : String) (client h : Header) (s : E)
      → conclude canonical upstream_url client (handle e req s).0 ≡ proxied h
      → Allowed e req s (handle e req s).0
        × (outgoing_headers canonical client (upstream_of (handle e req s).0.upstream_headers) ≡ h)
  conclude-Allowed canonical upstream_url client h s sent =
      let (allow, headers) = concluded canonical upstream_url client (handle e req s).0 h sent in
      (handle-Allowed e req s (handle e req s).0 (handle e req s).1 refl allow, headers)
