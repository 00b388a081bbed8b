-- ===== src/Agent/Server/Granted.antt =====
-- Which cookies the agent's server hands out.
use authsentinel.Base.{
  ◌≡◌, refl, false, String, List, [], ◌∷◌, ◌++◌, Option, some, Result, Exists, ◌⊎◌, arith, ◌==◌,
  is_empty,
}
use authsentinel.Agent.Config.{Config}
use authsentinel.Agent.Deps.{Deps}
use authsentinel.Agent.Flow.{World}
use authsentinel.Agent.Server.{routes, serve, handler}
use authsentinel.Agent.Server.Answers.{Server}
use authsentinel.Agent.Server.Acts.{if_both, respond-All, All-Exists, dispatch-All, NoCookie}
use authsentinel.Agent.Server.Kept.{Clearing, Fine, Kept, http_error-Kept, append-Kept, origin-Kept}
use authsentinel.Agent.Server.Mux.{Handler, cors, cors_headers, listed_origin}
use authsentinel.Agent.Server.Composed.{agent_server}
use authsentinel.Agent.Server.Http.{Act, write_header, Request, respond}
use authsentinel.Agent.Server.Endpoints.{Granted, routes-Kept}

module _ {S X : Type 0} (d : Deps S X) (cfg : Config) where
  module _ (ping : Option (World S X → Result (Unit {0}) × World S X))
      (metrics : Option (Request → World S X → List Act × World S X))
      (location : Request → String → String) where
    abbrev server : Server (World S X)
    server = agent_server d cfg ping metrics location

    module _ (r : Request) (w : World S X) where
      module _
          (quiet : (h : Request → Handler (World S X))
            → metrics ≡ some h
            → NoCookie (h r w).0) where
        serve-Kept : Kept server (Granted d cfg r w) (serve server r w).0
        unfolding serve
        serve-Kept =
            dispatch-All (Fine server (Granted d cfg r w)) (routes server) false r w
              (routes-Kept d cfg ping metrics location r w quiet)
              (http_error-Kept server (Granted d cfg r w))

        cors-Kept :
            (origins : List String) (next : Request → Handler (World S X))
            → Kept server (Granted d cfg r w) (next r w).0
            → Kept server (Granted d cfg r w) (cors origins next r w).0
        unfolding cors
        cors-Kept origins next fine =
            let first = listed_origin origins (r.header "Origin") ++ cors_headers in
            let (acts, later) = next r w in
            let first-Kept : Kept server (Granted d cfg r w) first =
              append-Kept server (Granted d cfg r w) (listed_origin origins (r.header "Origin"))
                cors_headers (origin-Kept server (Granted d cfg r w) origins (r.header "Origin"))
                (ground arith) in
            if_both (λ (x : List Act × World S X). Kept server (Granted d cfg r w) x.0)
              (r.method == "OPTIONS") (first ++ (write_header 204 ∷ []), w) (first ++ acts, later)
              (append-Kept server (Granted d cfg r w) first (write_header 204 ∷ []) first-Kept
                (tt, tt))
              (append-Kept server (Granted d cfg r w) first acts first-Kept fine)

        handler-Kept : Kept server (Granted d cfg r w) (handler server r w).0
        unfolding handler
        handler-Kept =
            if_both
              (λ (h : Request → Handler (World S X)). Kept server (Granted d cfg r w) (h r w).0)
              (is_empty cfg.cors_allowed_origins) (serve server)
              (cors cfg.cors_allowed_origins (serve server)) serve-Kept
              (cors-Kept cfg.cors_allowed_origins (serve server) serve-Kept)

    -- Every Set-Cookie line of a response deletes the session cookie, or sets it to a value that a login
    -- which passed every check, or a refresh under the lock, has made in answer to this request; the
    -- metrics page is one that sets no cookies.
    pub handler-Granted :
        (r : Request) (w : World S X) (line : String)
        → ((h : Request → Handler (World S X)) → metrics ≡ some h → NoCookie (h r w).0)
        → Exists (λ e. e ≡ ("Set-Cookie", line)) (respond (handler server r w).0 []).headers
        → Clearing cfg line ⊎ Granted d cfg r w line
    handler-Granted r w line quiet found =
        All-Exists (Fine server (Granted d cfg r w)) "Set-Cookie" line
          (respond (handler server r w).0 []).headers
          (respond-All (Fine server (Granted d cfg r w)) (handler server r w).0 []
            (handler-Kept r w quiet) tt)
          found refl
