-- ===== src/Gateways/Tests.antt =====
-- A gateway at a small request.
use authsentinel.Base.{◌≡◌, refl, true, [], ◌∷◌, none, some, lookup, if◌then◌else◌}
use authsentinel.Agent.Flow.{run}
use authsentinel.Gateways.{caddy_handler, traefik_handler, hand_off, forwarded}
use authsentinel.Gateways.Handed.{
  on_response, caddy_handler-on_response, traefik_handler-on_response,
}
use authsentinel.Proxy.Engine.{handle, respond}
use authsentinel.Proxy.Engine.Allowed.{Allowed}
use authsentinel.Proxy.Engine.Headers.{default_header_builder, set_if}
use authsentinel.Proxy.Http.{upstream_of}
use authsentinel.Proxy.Http.Forward.{set_for}
use authsentinel.Proxy.Tests.{client, engine, identity, page}

-- The access token is told to the client.
shown_test :
    lookup "Authorization"
      (on_response (caddy_handler identity true "" client (handle engine page 0).0))
    ≡ some ("Bearer at" ∷ [])
unfolding hand_off handle run respond lookup default_header_builder set_if
shown_test = refl

caddy_handler-on_response_example :
    Allowed engine page 0 (handle engine page 0).0
    × (lookup "X-User-Id"
          (on_response (caddy_handler identity true "" client (handle engine page 0).0))
        ≡ set_for identity (upstream_of (handle engine page 0).0.upstream_headers) "X-User-Id")
unfolding hand_off handle run respond
caddy_handler-on_response_example =
    caddy_handler-on_response engine page identity true "" client "X-User-Id" 0 refl

traefik_handler-on_response_example :
    Allowed engine page 0 (handle engine page 0).0
    × (lookup "X-User-Id" (
          on_response
            (traefik_handler identity true "" client ("x-user-id" ∷ []) (handle engine page 0).0))
        ≡ (if forwarded ("x-user-id" ∷ []) "X-User-Id"
            then set_for identity
                (upstream_of (handle engine page 0).0.upstream_headers)
                "X-User-Id"
            else none))
unfolding traefik_handler hand_off handle run respond
traefik_handler-on_response_example =
    traefik_handler-on_response engine page identity true "" client ("x-user-id" ∷ []) "X-User-Id" 0
      (λ _. refl) refl
