-- ===== src/Tests/Totals.antt =====
-- Statistics, imports and the rate limit in front of a handler.
use adaptive_api_routing_gat.Base.Time.{Time}
use adaptive_api_routing_gat.Model.Services.{Service}
use adaptive_api_routing_gat.Base.{ℕ, [], ◌∷◌, List, Text, codes}
use adaptive_api_routing_gat.Base.Float.{nanos_float}
use adaptive_api_routing_gat.Model.Logs.{RequestLog}
use adaptive_api_routing_gat.Store.Memory.{MemoryStore}
use adaptive_api_routing_gat.Store.Health.{list_request_logs}
use adaptive_api_routing_gat.Gateway.Stats.{get_gateway_stats}
use adaptive_api_routing_gat.Gateway.Stats.Counts.{IsTally, get_gateway_stats-IsTally}
use adaptive_api_routing_gat.Gateway.Stats.Busiest.{IsBusiest, get_gateway_stats-IsBusiest}
use adaptive_api_routing_gat.Tests.Samples.{store, service_named}

abbrev log_of : Text → Text → ℕ → RequestLog
log_of id route_id status = record {
  id = id;
  route_id = route_id;
  app_id = [];
  method = codes "GET";
  path = codes "/api";
  status_code = status;
  latency_ms = 10;
  client_ip = [];
  timestamp = 1;
}

abbrev logs : List RequestLog
logs =
    log_of (codes "e1") (codes "r1") 200
    ∷ log_of (codes "e2") (codes "r2") 429
    ∷ log_of (codes "e3") (codes "r1") 503
    ∷ []

abbrev logged : MemoryStore
logged = record store {
  request_logs =
      (codes "e1", log_of (codes "e1") (codes "r1") 200)
      ∷ (codes "e2", log_of (codes "e2") (codes "r2") 429)
      ∷ (codes "e3", log_of (codes "e3") (codes "r1") 503)
      ∷ [];
}

get_gateway_stats-IsBusiest_example :
    IsBusiest (list_request_logs logged) (get_gateway_stats logged).top_routes
get_gateway_stats-IsBusiest_example = get_gateway_stats-IsBusiest logged

get_gateway_stats-IsTally_example :
    IsTally (list_request_logs logged) (get_gateway_stats logged).requests
get_gateway_stats-IsTally_example = get_gateway_stats-IsTally logged

-- The second item has a name that is taken.
abbrev items : List (Text × Text × Time × Service)
items =
    (codes "s7", codes "h7", 7, service_named [] (codes "billing") (codes "http://billing"))
    ∷ (codes "s8", codes "h8", 8, service_named [] (codes "users") (codes "http://other"))
    ∷ []
