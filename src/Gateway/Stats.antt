-- ===== src/Gateway/Stats.antt =====
-- internal/service/stats_service.go, of a store that does not change in the meantime. The counters
-- and latencies are natural numbers.
pub mod Counts
pub mod Busiest
use adaptive_api_routing_gat.Base.{
  ℕ, ◌+◌, ◌-◌, ◌*◌, ◌/◌, Bool, true, false, none, some, Text, same, Map, lookup, insert, values,
  List, [], ◌∷◌, length, take, count_of, leb, ltb, ◌==◌, if◌then◌else◌,
}
use adaptive_api_routing_gat.Base.Sort.{sort_slice}
use adaptive_api_routing_gat.Model.Services.{service_active}
use adaptive_api_routing_gat.Model.Routes.{Route}
use adaptive_api_routing_gat.Model.Logs.{RequestLog}
use adaptive_api_routing_gat.Model.HealthChecks.{health_unhealthy}
use adaptive_api_routing_gat.Store.Memory.{MemoryStore}
use adaptive_api_routing_gat.Store.Entities.{list_services, list_routes, list_apps, list_api_keys}
use adaptive_api_routing_gat.Store.Health.{list_health_checks, list_request_logs}

pub record RouteTraffic : Type 0 where
  pub route_id : Text
  pub path : Text
  pub method : Text
  pub requests : ℕ
  pub errors : ℕ
  pub avg_latency : ℕ

pub record RequestCounts : Type 0 where
  pub total : ℕ
  pub success : ℕ
  pub client_err : ℕ
  pub server_err : ℕ
  pub limited : ℕ

pub record GatewayStats : Type 0 where
  pub services : ℕ
  pub active_services : ℕ
  pub unhealthy : ℕ
  pub routes : ℕ
  pub apps : ℕ
  pub api_keys : ℕ
  pub requests : RequestCounts
  pub top_routes : List RouteTraffic

abbrev pub no_requests : RequestCounts
no_requests = record { total = 0; success = 0; client_err = 0; server_err = 0; limited = 0 }

-- The `switch` of the loop, after `Total` is counted.
unfoldable pub count_request : ℕ → RequestCounts → RequestCounts
count_request status c =
    let c' : RequestCounts = record c { total = c.total + 1 } in
    if status == 429
    then record c' { limited = c'.limited + 1 }
    else if leb 500 status
    then record c' { server_err = c'.server_err + 1 }
    else if leb 400 status
    then record c' { client_err = c'.client_err + 1 }
    else record c' { success = c'.success + 1 }

unfoldable pub count_requests : List RequestLog → RequestCounts → RequestCounts
count_requests [] c = c
count_requests (l ∷ ls) c = count_requests ls (count_request l.status_code c)

unfoldable pub routes_by_id : List Route → Map Route → Map Route
routes_by_id [] m = m
routes_by_id (r ∷ rs) m = routes_by_id rs (insert r.id r m)

-- The traffic of a route that has none yet. A route that is gone has no path and no method.
unfoldable pub new_traffic : Map Route → Text → RouteTraffic
new_traffic by_id route_id = elim (lookup route_id by_id) [
  | some r ↦ record {
    route_id = route_id;
    path = r.path;
    method = r.method;
    requests = 0;
    errors = 0;
    avg_latency = 0;
  }
  | none ↦ record {
    route_id = route_id;
    path = [];
    method = [];
    requests = 0;
    errors = 0;
    avg_latency = 0;
  }
]

unfoldable pub add_request : RequestLog → RouteTraffic → RouteTraffic
add_request l tr =
    let n = tr.requests + 1 in
    record tr {
      requests = n;
      errors = if leb 400 l.status_code then tr.errors + 1 else tr.errors;
      avg_latency = (tr.avg_latency * (n - 1) + l.latency_ms) / n;
    }

unfoldable pub traffic_of : Map Route → Text → Map RouteTraffic → RouteTraffic
traffic_of by_id route_id m = elim (lookup route_id m) [
  | some tr ↦ tr
  | none ↦ new_traffic by_id route_id
]

unfoldable pub count_traffic : Map Route → List RequestLog → Map RouteTraffic → Map RouteTraffic
count_traffic by_id [] m = m
count_traffic by_id (l ∷ ls) m =
    count_traffic by_id ls (insert l.route_id (add_request l (traffic_of by_id l.route_id m)) m)

abbrev pub busier : RouteTraffic → RouteTraffic → Bool
busier a b = ltb b.requests a.requests

unfoldable pub get_gateway_stats : MemoryStore → GatewayStats
get_gateway_stats s =
    let by_id = routes_by_id (list_routes s) [] in
    let traffic = count_traffic by_id (list_request_logs s) [] in
    record {
      services = length (list_services s);
      active_services = count_of (λ v. same v.status service_active) (list_services s);
      unhealthy = count_of (λ h. same h.status health_unhealthy) (list_health_checks s);
      routes = length (list_routes s);
      apps = length (list_apps s);
      api_keys = length (list_api_keys s);
      requests = count_requests (list_request_logs s) no_requests;
      top_routes = take 10 (sort_slice busier (values traffic));
    }
