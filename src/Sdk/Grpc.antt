-- ===== src/Sdk/Grpc.antt =====
-- pkg/sdk/grpc.go: the interceptor, on the values of the authorization metadata.
use authsentinel.Base.{
  ◌≡◌, ◌≢◌, refl, arith, String, List, [], ◌∷◌, Option, none, some, Result, ok, err, if◌then◌else◌,
  ◌==◌, Bool-cases, inl, inr, ne_of_==-false,
}
use authsentinel.Cookie.Encrypt.{drop}
use authsentinel.Text.{◌+s◌, to_lower, trim_space, has_prefix}
use authsentinel.Token.Claims.{Principal}

-- An Unauthenticated status, or a call of the handler with what its context holds
pub data Intercepted : Type 0 where
  unauthenticated : String → Intercepted
  handled : Option Principal → Intercepted

-- The bytes before raw[7:] are characters, as only ASCII letters have those of "bearer" in lower case.
unfoldable pub bearer_token : String → String
unfolding to_lower trim_space has_prefix drop
bearer_token value =
    let raw = trim_space value in
    if has_prefix (to_lower raw) "bearer " then trim_space (drop 7 raw) else raw

module _ {E : Type 0} (validate_jwt : String → E → Result (Option Principal) × E) where
  abbrev intercepted : Result (Option Principal) × E → Intercepted × E
  intercepted (err e, s) = (unauthenticated ("invalid token: " +s e), s)
  intercepted (ok p, s) = (handled p, s)

  -- The metadata is missing, or has these values.
  unfoldable pub unary_server_interceptor : Option (List String) → E → Intercepted × E
  unfolding bearer_token
  unary_server_interceptor none s = (handled none, s)
  unary_server_interceptor (some []) s = (handled none, s)
  unary_server_interceptor (some (value ∷ _)) s =
      let raw = bearer_token value in
      let (answer, later) = intercepted (validate_jwt raw s) in
      if raw == "" then (handled none, s) else (answer, later)

  intercepted-handled :
      (r : Result (Option Principal) × E) (p : Principal)
      → (intercepted r).0 ≡ handled (some p)
      → r.0 ≡ ok (some p)
  intercepted-handled (err e, s) p h = ground arith
  intercepted-handled (ok o, s) p h = ground arith

  -- A handler has a principal only where the validator accepted the token of the first value, which
  -- is not empty, as that principal's.
  pub unary_server_interceptor-validated :
      (values : Option (List String)) (s : E) (p : Principal)
      → (unary_server_interceptor values s).0 ≡ handled (some p)
      → (value : String) × (more : List String) × (values ≡ some (value ∷ more))
        × (bearer_token value ≢ "")
        × ((validate_jwt (bearer_token value) s).0 ≡ ok (some p))
  unfolding unary_server_interceptor
  unary_server_interceptor-validated none s p h = ground arith
  unary_server_interceptor-validated (some []) s p h = ground arith
  unary_server_interceptor-validated (some (value ∷ more)) s p h =
      elim (Bool-cases (bearer_token value == "")) [
        | inl empty ↦ absurd (ground (arith, empty, h))
        | inr given ↦ (
          value,
          more,
          refl,
          ne_of_==-false (bearer_token value) "" given,
          intercepted-handled (validate_jwt (bearer_token value) s) p (ground (arith, given, h)),
        )
      ]
