-- ===== src/Agent/Server/Http.antt =====
-- What the agent's handlers use of net/http: the parts of a request that they read, and the calls of
-- a ResponseWriter in order, from which the response follows.
use authsentinel.Base.{ℕ, String, List, [], ◌∷◌, ◌++◌, Option, Result, Dict, delete}
use authsentinel.Agent.Sessions.{SessionUser, Resolved}
use authsentinel.Session.{TenantContext}
use authsentinel.Text.{◌+s◌}
use authsentinel.Value.{Value}

-- The body of a PATCH: session_id and tenant_context
pub record PatchBody : Type 0 where
  pub session_id : String
  pub tenant_context : Option TenantContext

-- A request: URL.Query().Get, FormValue, Header.Get, Cookie and the decoding of the body are functions.
pub record Request : Type 0 where
  pub method : String
  pub path : String
  pub host : String
  pub query : String → String
  pub form_value : String → String
  pub header : String → String
  pub cookie : String → Option String
  pub patch_body : Result PatchBody

-- What is written as a body; JSON stays the value that is encoded.
pub data Body : Type 0 where
  text : String → Body
  a_session_body : Dict Value → Option SessionUser → Body
  a_user : SessionUser → Body
  a_resolved : Resolved → Body
  an_admin_view : Dict Value → Dict Value → Body

-- Header().Set, Header().Add, WriteHeader and Write
pub data Act : Type 0 where
  set add : String → String → Act
  write_header : ℕ → Act
  write : Body → Act

pub record Response : Type 0 where
  pub status : ℕ
  pub headers : Dict String
  pub body : List Body

abbrev pub written : List Act → List Body
written [] = []
written (write b ∷ acts) = b ∷ written acts
written (_ ∷ acts) = written acts

-- The first WriteHeader or Write sends the status and the headers; a later change of them is lost.
unfoldable pub respond : List Act → Dict String → Response
unfolding delete
respond [] h = record { status = 200; headers = h; body = [] }
respond (set name value ∷ acts) h = respond acts (delete name h ++ ((name, value) ∷ []))
respond (add name value ∷ acts) h = respond acts (h ++ ((name, value) ∷ []))
respond (write_header code ∷ acts) h = record { status = code; headers = h; body = written acts }
respond (write b ∷ acts) h = record { status = 200; headers = h; body = b ∷ written acts }

-- http.Error
abbrev pub http_error : String → ℕ → List Act
http_error message code =
    set "Content-Type" "text/plain; charset=utf-8"
    ∷ set "X-Content-Type-Options" "nosniff"
    ∷ write_header code
    ∷ write (text (message +s "\n"))
    ∷ []
