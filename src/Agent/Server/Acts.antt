-- ===== src/Agent/Server/Acts.antt =====
-- Which header lines a response can have, read off what a handler does to the ResponseWriter.
use authsentinel.Base.{
  ◌≡◌, refl, ℕ, subst, Bool, true, false, ◌&&◌, ◌||◌, String, List, [], ◌∷◌, ◌++◌, Option, none,
  some, Dict, delete, All, Exists, any, inl, inr, Bool-cases, arith, if◌then◌else◌, ◌==◌,
}
use authsentinel.Agent.Server.Mux.{Route, Handler, optional, dispatch}
use authsentinel.Agent.Server.Answers.{when}
use authsentinel.Agent.Server.Http.{
  Act, set, add, write_header, write, Request, respond, http_error,
}

pub All-append :
    {A : Type 0} (P : A → Type 0) (xs ys : List A) → All P xs → All P ys → All P (xs ++ ys)
All-append P [] ys h k = k
All-append P (x ∷ xs) ys (first, h) k = (first, All-append P xs ys h k)

pub All-when :
    (P : Act → Type 0) (b : Bool) (acts : List Act) → (b ≡ true → All P acts) → All P (when b acts)
All-when P true acts h = h refl
All-when P false acts h = tt

pub if_both :
    {A : Type 0} (P : A → Type 0) (b : Bool) (x y : A) → P x → P y → P (if b then x else y)
if_both P true x y px py = px
if_both P false x y px py = py

-- An optional pattern for another path is passed over.
pub dispatch-skip :
    {W : Type 0} (path : String) (o : Option (Request → Handler W)) (rest : List (Route W))
    (known : Bool) (r : Request) (w : W)
    → (r.path == path) ≡ false
    → dispatch (optional path o ++ rest) known r w ≡ dispatch rest known r w
unfolding dispatch
dispatch-skip path none rest known r w other = refl
dispatch-skip path (some h) rest known r w other = ground (arith, other)

module _ (P : String → String → Type 0) where
  abbrev pub LineOk : String × String → Type 0
  LineOk entry = P entry.0 entry.1

  -- The header lines that an act sets are as they should be.
  abbrev pub ActOk : Act → Type 0
  ActOk (set name value) = P name value
  ActOk (add name value) = P name value
  ActOk (write_header _) = Unit
  ActOk (write _) = Unit

  All-delete : (name : String) (h : Dict String) → All LineOk h → All LineOk (delete name h)
  unfolding delete
  All-delete name [] fine = fine
  All-delete name (e ∷ h) (first, fine) = elim (Bool-cases (e.0 == name)) [
    | inl same ↦ ground (arith, same, All-delete name h fine)
    | inr other ↦ ground (arith, other, All-delete name h fine, first)
  ]

  pub respond-All :
      (acts : List Act) (h : Dict String)
      → All ActOk acts
      → All LineOk h
      → All LineOk (respond acts h).headers
  unfolding respond
  respond-All [] h fine before = before
  respond-All (set name value ∷ acts) h (first, fine) before =
      respond-All acts _ fine (All-append LineOk _ _ (All-delete name h before) (first, tt))
  respond-All (add name value ∷ acts) h (first, fine) before =
      respond-All acts _ fine (All-append LineOk _ _ before (first, tt))
  respond-All (write_header code ∷ acts) h fine before = before
  respond-All (write b ∷ acts) h fine before = before

  pub All-Exists :
      (name value : String) (h : Dict String)
      → All LineOk h
      → Exists (λ e. e ≡ (name, value)) h
      → P name value
  All-Exists name value [] fine found = absurd found
  All-Exists name value (e ∷ h) (first, fine) (inl same) = subst LineOk same first
  All-Exists name value (e ∷ h) (first, fine) (inr later) = All-Exists name value h fine later

  -- What holds of every handler's acts and of the two refusals holds of the mux.
  pub dispatch-All :
      {W : Type 0} (routes : List (Route W)) (known : Bool) (r : Request) (w : W)
      → All (λ route. All ActOk (route.2 r w).0) routes
      → ((message : String) (code : ℕ) → All ActOk (http_error message code))
      → All ActOk (dispatch routes known r w).0
  unfolding dispatch
  dispatch-All [] true r w fine refusal = refusal "Method Not Allowed" 405
  dispatch-All [] false r w fine refusal = refusal "404 page not found" 404
  dispatch-All ((methods, path, h) ∷ rest) known r w (first, fine) refusal =
      elim (Bool-cases (r.path == path && any (λ m. r.method == m) methods)) [
        | inl hit ↦ ground (arith, hit, first)
        | inr miss ↦
            ground (arith, miss, dispatch-All rest (known || r.path == path) r w fine refusal)
      ]

-- The acts of a handler that has nothing to do with cookies.
abbrev pub NoCookie : List Act → Type 0
NoCookie acts = All (ActOk (λ name value. (name == "Set-Cookie") ≡ false)) acts

pub NoCookie-All :
    (P : String → Type 0) (acts : List Act)
    → NoCookie acts
    → All (ActOk (λ name value. (name == "Set-Cookie") ≡ true → P value)) acts
NoCookie-All P [] h = tt
NoCookie-All P (set name value ∷ acts) (other, h) =
    ((λ same. absurd (ground arith)), NoCookie-All P acts h)
NoCookie-All P (add name value ∷ acts) (other, h) =
    ((λ same. absurd (ground arith)), NoCookie-All P acts h)
NoCookie-All P (write_header code ∷ acts) (first, h) = (tt, NoCookie-All P acts h)
NoCookie-All P (write b ∷ acts) (first, h) = (tt, NoCookie-All P acts h)
