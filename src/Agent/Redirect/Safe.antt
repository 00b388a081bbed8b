-- ===== src/Agent/Redirect/Safe.antt =====
-- Where a validated redirect can lead.
use authsentinel.Base.{
  ◌≡◌, refl, sym, ◌≢◌, ◌⊎◌, inl, inr, true, false, String, List, [], Option, none, some, arith,
  Bool-cases, is_empty, ◌==◌, eq_iff,
}
use authsentinel.Text.{◌+s◌, has_prefix, trim_space, trim_suffix}
use authsentinel.Agent.Redirect.{
  Url, origin_of, path_allowed, origin_allowed, check_url, check_target, validate_redirect,
}

-- The targets that the configuration permits: the application itself, a listed path below it, or an
-- absolute http(s) address whose origin (and path, where paths are listed) is listed.
pub data Permitted (url_parse : String → Option Url) (base : String)
    (origins prefixes : List String) : String → Type 0 where
  home : {r : String} → r ≡ base → Permitted url_parse base origins prefixes r
  local :
      {r : String} (path : String)
      → has_prefix path "/" ≡ true
      → (prefixes ≡ []) ⊎ (path_allowed prefixes path ≡ true)
      → r ≡ trim_suffix base "/" +s path
      → Permitted url_parse base origins prefixes r
  listed :
      {r : String} (u : Url)
      → url_parse r ≡ some u
      → (u.scheme ≡ "https") ⊎ (u.scheme ≡ "http")
      → origin_allowed origins (origin_of u) ≡ true
      → (prefixes ≡ []) ⊎ (path_allowed prefixes u.path ≡ true)
      → Permitted url_parse base origins prefixes r

is_empty→nil : (xs : List String) → is_empty xs ≡ true → xs ≡ []
is_empty→nil [] h = refl
is_empty→nil _ h = ground arith

module _ (url_parse : String → Option Url) (base : String) (origins prefixes : List String) where
  check_url_checks :
      (target r : String) (u : Url)
      → check_url url_parse (some u) target origins prefixes ≡ r
      → r ≢ ""
      → (r ≡ target)
        × ((u.scheme ≡ "https") ⊎ (u.scheme ≡ "http"))
        × (origin_allowed origins (origin_of u) ≡ true)
        × ((prefixes ≡ []) ⊎ (path_allowed prefixes u.path ≡ true))
  unfolding check_url
  check_url_checks target r u e h =
      ground (arith, eq_iff u.scheme "https", eq_iff u.scheme "http", is_empty→nil prefixes)

  check_url-Permitted :
      (target r : String) (o : Option Url)
      → url_parse target ≡ o
      → check_url url_parse o target origins prefixes ≡ r
      → r ≢ ""
      → Permitted url_parse base origins prefixes r
  unfolding check_url
  check_url-Permitted target r none parsed e h = absurd (h (sym e))
  check_url-Permitted target r (some u) parsed e h =
      let (same, scheme, origin, path) = check_url_checks target r u e h in
      listed u (rw same parsed) scheme origin path

  check_target_rooted :
      (target r : String)
      → (target == "") ≡ false
      → has_prefix target "/" ≡ true
      → check_target url_parse target base origins prefixes ≡ r
      → r ≢ ""
      → ((prefixes ≡ []) ⊎ (path_allowed prefixes target ≡ true))
        × (r ≡ trim_suffix base "/" +s target)
  unfolding check_target
  check_target_rooted target r given rooted e h = ground (arith, is_empty→nil prefixes)

  check_target-Permitted :
      (target r : String)
      → check_target url_parse target base origins prefixes ≡ r
      → r ≢ ""
      → Permitted url_parse base origins prefixes r
  unfolding check_target
  check_target-Permitted target r e h = elim (Bool-cases (target == "")) [
    | inl blank ↦ home (sym (rw (blank, check_target) at e))
    | inr given ↦ elim (Bool-cases (has_prefix target "/")) [
      | inl rooted ↦
          let (path, same) = check_target_rooted target r given rooted e h in
          local target rooted path same
      | inr other ↦
          check_url-Permitted target r (url_parse target) refl
            (rw (given, other, check_target) at e) h
    ]
  ]

  -- A redirect that ValidateRedirect does not refuse is the application, a listed path below it, or
  -- an absolute http(s) address of a listed origin, or of any where "*" is listed (and below a listed
  -- path, where paths are listed).
  pub validate_redirect-Permitted :
      (redirect_to r : String)
      → validate_redirect url_parse redirect_to base origins prefixes ≡ r
      → r ≢ ""
      → Permitted url_parse base origins prefixes r
  unfolding validate_redirect
  validate_redirect-Permitted redirect_to r = check_target-Permitted (trim_space redirect_to) r
