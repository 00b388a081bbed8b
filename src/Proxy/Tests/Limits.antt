-- ===== src/Proxy/Tests/Limits.antt =====
-- A limiter with one request a second, and another client in between.
use authsentinel.Base.{
  ◌≡◌, refl, ℕ, true, String, [], ◌∷◌, Option, none, pos, arith, ne_of_==-false,
}
use authsentinel.Proxy.RateLimit.{Config, Decoded, configure, handle, derive_key}
use authsentinel.Proxy.RateLimit.Bounds.{Arrival, let_through}
use authsentinel.Proxy.RateLimit.Recovers.{after, handle-recovers}

abbrev pub decoded : Decoded
decoded = record {
  requests_per_minute = pos 60;
  burst = pos 1;
  key_strategy = " Header ";
  header_name = "X-Client";
}

abbrev pub limits : Config
limits = record {
  requests_per_minute = 60;
  burst = 1;
  key_strategy = "header";
  header_name = "X-Client";
}

abbrev no_ip : String → Option String
no_ip _ = none

abbrev from_client : String → ℕ → Arrival
from_client name t = record {
  request = record {
    method = "GET";
    path = "/";
    headers = ("X-Client", name) ∷ [];
    cookies = [];
    body = "";
    protocol = "";
    graphql_operation = "";
    grpc_service = "";
    grpc_method = "";
  };
  principal = none;
  time = t;
}

handle-recovers_example :
    let now = from_client "a" 2000000000 in
    let earlier = from_client "a" 1000000000 ∷ from_client "b" 1500000000 ∷ [] in
    let buckets = after no_ip limits [] (from_client "a" 0 ∷ []) in
    let step =
      handle no_ip limits now.request now.principal now.time (after no_ip limits buckets earlier) in
    let_through step.0 ≡ true
unfolding configure derive_key
handle-recovers_example =
    handle-recovers no_ip decoded limits (after no_ip limits [] (from_client "a" 0 ∷ []))
      (from_client "a" 1000000000) (from_client "a" 2000000000) (from_client "b" 1500000000 ∷ [])
      refl refl (ne_of_==-false "b" "a" refl, tt) (omega arith)
