-- ===== src/Tests/Requests.antt =====
-- A request to a service behind a route that needs a key and has a rate limit.
use adaptive_api_routing_gat.Base.{
  ◌≡◌, refl, some, [], ok, true, Text, codes, same, lookup, insert, delete, has_prefix, trim_prefix,
  len,
}
use adaptive_api_routing_gat.Base.Time.{since}
use adaptive_api_routing_gat.Base.Float.{Nanos, nanos_float}
use adaptive_api_routing_gat.Model.Routes.{Route}
use adaptive_api_routing_gat.Model.ApiKeys.{is_expired}
use adaptive_api_routing_gat.Model.Rules.{rate_per_second}
use adaptive_api_routing_gat.RateLimit
use adaptive_api_routing_gat.RateLimit.{new_token_bucket, refill, take_token}
use adaptive_api_routing_gat.CircuitBreaker
use adaptive_api_routing_gat.Store.Entities.{
  list_routes, get_api_key_by_key, get_app, get_rate_limit_rule, get_service,
}
use adaptive_api_routing_gat.Gateway.{
  Gateway, allow_request, bucket_for, allow_service, breaker_for,
}
use adaptive_api_routing_gat.Gateway.Auth.{authenticate, authenticate_key}
use adaptive_api_routing_gat.Gateway.Matching.{covers, match_routes, match_route}
use adaptive_api_routing_gat.Handler.Proxy.{
  copied, Request, Moments, Upstream, caller, limit_and_forward, forward, proxy_request,
  gateway_handler,
}
use adaptive_api_routing_gat.Handler.Proxy.Paths.{upstream_path, single_joining_slash}
use adaptive_api_routing_gat.Handler.Forwarding.{IsSent, gateway_handler-IsSent}
use adaptive_api_routing_gat.Handler.Logging.{app_of, IsRecorded, gateway_handler-IsLogged}
use adaptive_api_routing_gat.Tests.Samples.{store, users_route}

abbrev gateway : Gateway Nanos
gateway = record { store = store; buckets = []; breakers = [] }

abbrev pub request : Request
request = record {
  method = codes "GET";
  path = codes "/api/users/7";
  escaped_path = codes "/api/users/7";
  api_key = codes "secret";
  forwarded_for = [];
  remote_addr = codes "10.0.0.1:4711";
}

abbrev pub moments : Moments
moments = record {
  start = 50;
  at_auth = 51;
  at_limit = 52;
  at_breaker = 53;
  at_result = 54;
  at_log = 55;
  log_id = codes "e1";
}

abbrev upstream : Upstream
upstream = record { base_path = λ url. some []; answer = λ url path. copied 200 }

request_sent :
    (gateway_handler upstream request moments gateway).1.forwarded
    ≡ some (codes "http://users", codes "/7")
unfolding gateway_handler match_route match_routes list_routes same covers has_prefix len
    authenticate get_api_key_by_key authenticate_key is_expired get_app lookup limit_and_forward
    allow_request get_rate_limit_rule bucket_for new_token_bucket rate_per_second RateLimit.allow
    refill take_token since insert delete forward get_service allow_service breaker_for
    CircuitBreaker.new CircuitBreaker.allow proxy_request upstream_path single_joining_slash
    trim_prefix
request_sent = refl

gateway_handler-IsSent_example :
    (route : Route) × (app_id : Text) × (match_route (codes "GET") (codes "/api/users/7") store
      ≡ some route)
    × (caller route request moments gateway ≡ ok app_id)
    × ((allow_request route 52 gateway).1 ≡ true)
    × IsSent upstream request moments route
        (allow_request route 52 gateway).0
        (codes "http://users")
        (codes "/7")
gateway_handler-IsSent_example =
    gateway_handler-IsSent upstream request moments gateway request_sent

matched : match_route (codes "GET") (codes "/api/users/7") store ≡ some users_route
unfolding match_route match_routes list_routes same covers has_prefix len
matched = refl

gateway_handler-IsLogged_example :
    IsRecorded request moments
      (codes "e1")
      users_route
      (app_of (caller users_route request moments gateway))
      store
      (gateway_handler upstream request moments gateway).0.store
      (gateway_handler upstream request moments gateway).1
gateway_handler-IsLogged_example =
    gateway_handler-IsLogged upstream request moments (codes "e1") users_route gateway matched

-- A base URL with a path of its own keeps the prefix of the route.
unstripped :
    upstream_path users_route (codes "/v1") (codes "/api/users/7") ≡ codes "/v1/api/users/7"
unfolding upstream_path single_joining_slash trim_prefix has_prefix
unstripped = refl
