-- ===== src/Agent/Server/Mux.antt =====
-- Routing and CORS of internal/agent/httpserver/server.go
use authsentinel.Base.{
  Bool, ◌&&◌, ◌||◌, String, List, [], ◌∷◌, ◌++◌, Option, none, some, any, if◌then◌else◌, ◌==◌,
}
use authsentinel.Agent.Server.Http.{Request, Act, set, write_header, http_error}

abbrev pub Handler : Type 0 → Type 0
Handler W = W → List Act × W

-- The methods, the path and the handler of a pattern. A GET pattern matches HEAD, too.
abbrev pub Route : Type 0 → Type 0
Route W = List String × String × (Request → Handler W)

abbrev pub listed_origin : List String → String → List Act
listed_origin [] origin = []
listed_origin (o ∷ os) origin =
    let rest = listed_origin os origin in
    if o == "*" || o == origin then set "Access-Control-Allow-Origin" o ∷ [] else rest

abbrev pub cors_headers : List Act
cors_headers =
    set "Access-Control-Allow-Credentials" "true"
    ∷ set "Access-Control-Allow-Methods" "GET, POST, OPTIONS"
    ∷ set "Access-Control-Allow-Headers" "Content-Type"
    ∷ []

module _ {W : Type 0} where
  abbrev pub gets : String → (Request → Handler W) → Route W
  gets path h = ("GET" ∷ "HEAD" ∷ [], path, h)

  abbrev pub optional : String → Option (Request → Handler W) → List (Route W)
  optional path none = []
  optional path (some h) = gets path h ∷ []

  -- The mux: no two patterns match the same request, so the first match is the one. Where only other
  -- methods are registered for the path, the answer is 405.
  unfoldable pub dispatch : List (Route W) → Bool → Request → Handler W
  dispatch [] known r w = (
    if known then http_error "Method Not Allowed" 405 else http_error "404 page not found" 404,
    w,
  )
  dispatch ((methods, path, h) ∷ rest) known r w =
      let later = dispatch rest (known || r.path == path) r w in
      if r.path == path && any (λ m. r.method == m) methods then h r w else later

  unfoldable pub cors : List String → (Request → Handler W) → Request → Handler W
  cors origins next r w =
      let first = listed_origin origins (r.header "Origin") ++ cors_headers in
      let (acts, later) = next r w in
      if r.method == "OPTIONS"
      then (first ++ (write_header 204 ∷ []), w)
      else (first ++ acts, later)
