-- ===== src/Proxy/Http/Forward.antt =====
-- Which headers of the client reach the upstream.
use authsentinel.Base.{
  Bool, true, not, ◌&&◌, any, All, ◌∙◌, ◌≡◌, refl, String, List, [], ◌∷◌, Option, none, some, arith,
  Dict, lookup, lookup-insert, if◌then◌else◌, ◌==◌, eq_iff, Bool-cases, inl, inr, ap,
}
use authsentinel.Text.{to_lower, trim_space, split}
use authsentinel.Proxy.Http.{Header, client_headers, set_upstream, outgoing_headers}

-- The value that the upstream headers set under a canonical name
unfoldable pub set_for : (String → String) → Dict String → String → Option (List String)
set_for canonical [] k = none
set_for canonical ((j, v) ∷ rest) k =
    if canonical j == k then some (v ∷ []) else set_for canonical rest k

abbrev pub first_of_two : Option (List String) → Option (List String) → Option (List String)
first_of_two none b = b
first_of_two (some a) b = some a

lookup-client_headers :
    (k : String) (h : Header)
    → lookup k (client_headers h) ≡ (if to_lower k == "cookie" then none else lookup k h)
unfolding client_headers lookup
lookup-client_headers k [] = ground arith
lookup-client_headers k ((j, v) ∷ rest) = elim (Bool-cases (j == k)) [
  | inl same ↦
      let e : j ≡ k = (eq_iff j k).0 same in
      ground (
        arith,
        same,
        ap (λ x. to_lower x == "cookie") e,
        lookup-insert j k v (client_headers rest),
        lookup-client_headers k rest,
      )
  | inr other ↦
      ground (arith, lookup-insert j k v (client_headers rest), lookup-client_headers k rest)
]

pub lookup-set_upstream :
    (canonical : String → String) (k : String) (u : Dict String) (h : Header)
    → lookup k (set_upstream canonical u h) ≡ first_of_two (set_for canonical u k) (lookup k h)
unfolding set_upstream set_for
lookup-set_upstream canonical k [] h = refl
lookup-set_upstream canonical k ((j, v) ∷ rest) h = ground (
  arith,
  lookup-insert (canonical j) k (v ∷ []) (set_upstream canonical rest h),
  lookup-set_upstream canonical k rest h,
)

lookup-outgoing_headers :
    (canonical : String → String) (k : String) (client : Header) (upstream : Dict String)
    → lookup k (outgoing_headers canonical client upstream)
      ≡ first_of_two
          (set_for canonical upstream k)
          (if to_lower k == "cookie" then none else lookup k client)
unfolding outgoing_headers
lookup-outgoing_headers canonical k client upstream =
    rw
      (
        lookup-set_upstream canonical k upstream (client_headers client),
        lookup-client_headers k client,
      )
      refl

-- The headers that net/http/httputil.ReverseProxy takes out or sets by itself
abbrev touched : List String
touched =
    "Connection" ∷ "Proxy-Connection" ∷ "Keep-Alive" ∷ "Proxy-Authenticate" ∷ "Proxy-Authorization"
    ∷ "Te" ∷ "Trailer" ∷ "Transfer-Encoding" ∷ "Upgrade" ∷ "X-Forwarded-For" ∷ "User-Agent" ∷ []

abbrev values_of : Option (List String) → List String
values_of none = []
values_of (some vs) = vs

-- Of a request with these headers, ReverseProxy leaves the header alone: it is not one of those, nor
-- named in a Connection header.
unfoldable pub left_alone : (String → String) → Header → String → Bool
left_alone canonical h k =
    not (any (λ t. t == k) touched)
    && not (
        any (λ v. any (λ n. canonical (trim_space n) == k) (split b',' v))
          (values_of (lookup "Connection" h)))

-- `sent` gives the headers that ReverseProxy sends for a request's headers.
module _ (canonical : String → String) (sent : Header → Header)
    (leaves : (h : Header) (k : String)
      → left_alone canonical h k ≡ true
      → lookup k (sent h) ≡ lookup k h)
    (client : Header) (upstream : Dict String) where
  pub sent-forwarded :
      (k : String)
      → left_alone canonical (outgoing_headers canonical client upstream) k ≡ true
      → lookup k (sent (outgoing_headers canonical client upstream))
        ≡ first_of_two
            (set_for canonical upstream k)
            (if to_lower k == "cookie" then none else lookup k client)
  sent-forwarded k alone =
      leaves (outgoing_headers canonical client upstream) k alone
      ∙ lookup-outgoing_headers canonical k client upstream

  one_of : Option String → Option (List String)
  one_of none = none
  one_of (some v) = some (v ∷ [])

  set_for-canonical :
      (u : Dict String) (k : String)
      → All (λ e. canonical e.0 ≡ e.0) u
      → set_for canonical u k ≡ one_of (lookup k u)
  unfolding set_for lookup one_of
  set_for-canonical [] k fixed = refl
  set_for-canonical ((j, v) ∷ u) k (first, fixed) = elim (Bool-cases (j == k)) [
    | inl same ↦ ground (arith, same, ap (λ x. x == k) first)
    | inr other ↦ ground (arith, other, ap (λ x. x == k) first, set_for-canonical u k fixed)
  ]

  pub sent-set :
      (k v : String)
      → All (λ e. canonical e.0 ≡ e.0) upstream
      → lookup k upstream ≡ some v
      → left_alone canonical (outgoing_headers canonical client upstream) k ≡ true
      → lookup k (sent (outgoing_headers canonical client upstream)) ≡ some (v ∷ [])
  unfolding one_of
  sent-set k v fixed found alone =
      sent-forwarded k alone
      ∙ ap (λ o. first_of_two o (if to_lower k == "cookie" then none else lookup k client))
          (set_for-canonical upstream k fixed ∙ ap one_of found)
