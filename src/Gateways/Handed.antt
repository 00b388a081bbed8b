-- ===== src/Gateways/Handed.antt =====
-- What a gateway hands on.
use authsentinel.Base.{
  ◌≡◌, refl, sym, ap, ◌∙◌, arith, true, false, Bool, String, List, [], ◌∷◌, Option, none, some,
  Dict, lookup, if◌then◌else◌, ◌==◌, Bool-cases, inl, inr, eq_iff,
}
use authsentinel.Gateways.{
  Handoff, denied, next_called, to_upstream, bare_ok, forwarded, filter_headers, hand_off,
  caddy_handler, traefik_handler,
}
use authsentinel.Proxy.Engine.{Engine, handle}
use authsentinel.Proxy.Engine.Allowed.{Allowed, handle-Allowed}
use authsentinel.Proxy.Http.{Header, set_upstream, upstream_of}
use authsentinel.Proxy.Http.Forward.{set_for, first_of_two, lookup-set_upstream}
use authsentinel.Proxy.Types.{Request, Response}
use authsentinel.Text.{to_lower}

-- The headers of the response to the client
abbrev pub on_response : Handoff → Header
on_response (denied _) = []
on_response (next_called h) = h
on_response (to_upstream h _) = h
on_response (bare_ok h) = h

abbrev pub handed_on : Handoff → Bool
handed_on (denied _) = false
handed_on _ = true

hand_off-on_response :
    (canonical : String → String) (has_next : Bool) (upstream_url : String) (client : Header)
    (shown : Dict String) (resp : Response)
    → handed_on (hand_off canonical has_next upstream_url client shown resp) ≡ true
    → (resp.allow ≡ true)
      × (on_response (hand_off canonical has_next upstream_url client shown resp)
          ≡ set_upstream canonical shown [])
unfolding hand_off
hand_off-on_response canonical has_next upstream_url client shown resp h = ground arith

set_for-none : (o : Option (List String)) → first_of_two o none ≡ o
set_for-none none = refl
set_for-none (some a) = refl

lookup-shown :
    (canonical : String → String) (k : String) (shown : Dict String)
    → lookup k (set_upstream canonical shown []) ≡ set_for canonical shown k
unfolding lookup
lookup-shown canonical k shown =
    lookup-set_upstream canonical k shown [] ∙ set_for-none (set_for canonical shown k)

-- The lower case of a name decides whether it is forwarded.
forwarded-canonical :
    (allow_list : List String) (j k : String)
    → to_lower j ≡ to_lower k
    → forwarded allow_list j ≡ forwarded allow_list k
unfolding forwarded
forwarded-canonical allow_list j k same = rw same refl

set_for-filter_headers :
    (canonical : String → String) (allow_list : List String) (k : String) (u : Dict String)
    → ((j : String) → to_lower (canonical j) ≡ to_lower j)
    → set_for canonical (filter_headers u allow_list) k
      ≡ (if forwarded allow_list k then set_for canonical u k else none)
unfolding set_for filter_headers
set_for-filter_headers canonical allow_list k [] keeps = ground arith
set_for-filter_headers canonical allow_list k ((j, v) ∷ rest) keeps =
    let later = set_for-filter_headers canonical allow_list k rest keeps in
    elim (Bool-cases (canonical j == k)) [
      | inl same ↦
          let e : to_lower j ≡ to_lower k =
            sym (keeps j) ∙ ap to_lower ((eq_iff (canonical j) k).0 same) in
          ground (arith, same, later, forwarded-canonical allow_list j k e)
      | inr other ↦ ground (arith, other, later)
    ]

module _ {E : Type 0} (e : Engine E) (req : Request) (canonical : String → String) (has_next : Bool)
    (upstream_url : String) (client : Header) where
  hand_off-Allowed :
      (shown : Dict String) (k : String) (s : E)
      → handed_on (hand_off canonical has_next upstream_url client shown (handle e req s).0) ≡ true
      → Allowed e req s (handle e req s).0
        × (lookup k (
              on_response
                (hand_off canonical has_next upstream_url client shown (handle e req s).0))
            ≡ set_for canonical shown k)
  hand_off-Allowed shown k s on =
      let (allow, headers) =
        hand_off-on_response canonical has_next upstream_url client shown (handle e req s).0 on in
      (
        handle-Allowed e req s (handle e req s).0 (handle e req s).1 refl allow,
        ap (lookup k) headers ∙ lookup-shown canonical k shown,
      )

  -- If the Caddy handler does not write a denial, then the engine has let the request through by the
  -- decision of a plugin or of the policy, and every header that the engine made for the upstream is
  -- on the response to the client, which has no other header by then.
  pub caddy_handler-on_response :
      (k : String) (s : E)
      → handed_on (caddy_handler canonical has_next upstream_url client (handle e req s).0) ≡ true
      → Allowed e req s (handle e req s).0
        × (lookup k (
              on_response (caddy_handler canonical has_next upstream_url client (handle e req s).0))
            ≡ set_for canonical (upstream_of (handle e req s).0.upstream_headers) k)
  caddy_handler-on_response k s on =
      hand_off-Allowed (upstream_of (handle e req s).0.upstream_headers) k s on

  -- If the Traefik handler does not write a denial and canonical names differ from the names by case
  -- only, then the engine has let the request through by the decision of a plugin or of the policy,
  -- and the response has the engine's value of exactly the listed headers, or, without a list, of
  -- those that start with X- and of Authorization, in any case.
  pub traefik_handler-on_response :
      (auth_response_headers : List String) (k : String) (s : E)
      → ((j : String) → to_lower (canonical j) ≡ to_lower j)
      → handed_on (
          traefik_handler canonical has_next upstream_url client auth_response_headers
            (handle e req s).0)
        ≡ true
      → Allowed e req s (handle e req s).0
        × (lookup k (
              on_response (
                traefik_handler canonical has_next upstream_url client auth_response_headers
                  (handle e req s).0))
            ≡ (if forwarded auth_response_headers k
                then set_for canonical (upstream_of (handle e req s).0.upstream_headers) k
                else none))
  unfolding traefik_handler
  traefik_handler-on_response auth_response_headers k s keeps on =
      let u = upstream_of (handle e req s).0.upstream_headers in
      let (allowed, shown) = hand_off-Allowed (filter_headers u auth_response_headers) k s on in
      (allowed, shown ∙ set_for-filter_headers canonical auth_response_headers k u keeps)
