-- ===== src/Proxy/Types.antt =====
-- pkg/proxy/request.go, pkg/proxy/decision.go, pkg/policy/input.go and pkg/policy/result.go
use authsentinel.Base.{Bool, String, Option, ℤ, Dict}
use authsentinel.Token.Claims.{Principal}
use authsentinel.Value.{Claims}

pub record Request : Type 0 where
  pub protocol : String
  pub method : String
  pub path : String
  pub headers : Dict String
  pub cookies : Dict String
  pub body : String
  pub graphql_operation : String
  pub grpc_service : String
  pub grpc_method : String

-- `upstream_headers` is a map that may be nil; the engine sets no cookies.
pub record Response : Type 0 where
  pub allow : Bool
  pub upstream_headers : Option (Dict String)
  pub status_code : ℤ
  pub body : String

pub record Decision : Type 0 where
  pub allow : Bool
  pub status_code : ℤ
  pub headers : Option (Dict String)
  pub reason : String
  pub obligations : Claims

pub record Input : Type 0 where
  pub protocol : String
  pub method : String
  pub path : String
  pub graphql_operation : String
  pub grpc_service : String
  pub grpc_method : String
  pub principal : Option Principal
  pub headers : Dict String
