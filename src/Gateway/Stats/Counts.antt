-- ===== src/Gateway/Stats/Counts.antt =====
-- What the statistics count.
use adaptive_api_routing_gat.Base.{
  ℕ, ◌+◌, ◌≡◌, refl, ap, ◌∙◌, Bool, not, ◌&&◌, none, some, Text, same, same_iff, Map, lookup,
  insert, lookup-insert, List, [], ◌∷◌, length, count_of, leb, ltb, ◌==◌, if◌then◌else◌, arith,
}
use adaptive_api_routing_gat.Model.Routes.{Route}
use adaptive_api_routing_gat.Model.Logs.{RequestLog}
use adaptive_api_routing_gat.Store.Memory.{MemoryStore}
use adaptive_api_routing_gat.Store.Health.{list_request_logs}
use adaptive_api_routing_gat.Gateway.Stats.{
  RouteTraffic, RequestCounts, no_requests, count_request, count_requests, add_request, new_traffic,
  traffic_of, count_traffic, get_gateway_stats,
}

abbrev pub is_limited : RequestLog → Bool
is_limited l = l.status_code == 429

abbrev pub is_server_err : RequestLog → Bool
is_server_err l = leb 500 l.status_code

abbrev pub is_client_err : RequestLog → Bool
is_client_err l = leb 400 l.status_code && ltb l.status_code 500 && not (l.status_code == 429)

abbrev pub is_success : RequestLog → Bool
is_success l = ltb l.status_code 400

-- The counts after some logs.
count_requests-count_of :
    (ls : List RequestLog) (c : RequestCounts)
    → count_requests ls c ≡ record {
      total = c.total + length ls;
      success = c.success + count_of is_success ls;
      client_err = c.client_err + count_of is_client_err ls;
      server_err = c.server_err + count_of is_server_err ls;
      limited = c.limited + count_of is_limited ls;
    }
unfolding count_requests
count_requests-count_of [] c = ground arith
count_requests-count_of (l ∷ ls) c =
    count_requests-count_of ls (count_request l.status_code c)
    ∙ unfold count_request in ground arith

-- Every log is of one of the four kinds.
length-count_of :
    (ls : List RequestLog)
    → length ls
      ≡ count_of is_success ls
        + count_of is_client_err ls
        + count_of is_server_err ls
        + count_of is_limited ls
length-count_of [] = refl
length-count_of (l ∷ ls) = ground (arith, length-count_of ls)

-- The counts of a list of logs, which sum up to the total.
pub record IsTally (ls : List RequestLog) (c : RequestCounts) : Type 0 where
  pub total : c.total ≡ length ls
  pub success : c.success ≡ count_of is_success ls
  pub client_err : c.client_err ≡ count_of is_client_err ls
  pub server_err : c.server_err ≡ count_of is_server_err ls
  pub limited : c.limited ≡ count_of is_limited ls
  pub sum : c.total ≡ c.success + c.client_err + c.server_err + c.limited

-- The statistics count each logged request once in the total and once as one of limited (429),
-- server error (500 and up), client error (the rest from 400 up) and success (below 400), so that
-- these four sum up to the total.
pub get_gateway_stats-IsTally :
    (s : MemoryStore) → IsTally (list_request_logs s) (get_gateway_stats s).requests
unfolding get_gateway_stats
get_gateway_stats-IsTally s =
    let ls = list_request_logs s in
    let counted = count_requests-count_of ls no_requests in
    record {
      total = ap (λ c. c.total) counted ∙ omega arith;
      success = ap (λ c. c.success) counted ∙ omega arith;
      client_err = ap (λ c. c.client_err) counted ∙ omega arith;
      server_err = ap (λ c. c.server_err) counted ∙ omega arith;
      limited = ap (λ c. c.limited) counted ∙ omega arith;
      sum = rw counted (omega (arith, length-count_of ls));
    }

-- The requests and the errors that a map of traffic has for a route.
abbrev pub requests_of : Text → Map RouteTraffic → ℕ
requests_of k m = elim (lookup k m) [ some tr ↦ tr.requests | none ↦ 0 ]

abbrev pub errors_of : Text → Map RouteTraffic → ℕ
errors_of k m = elim (lookup k m) [ some tr ↦ tr.errors | none ↦ 0 ]

requests_of-insert :
    (by_id : Map Route) (l : RequestLog) (m : Map RouteTraffic) (k : Text)
    → (requests_of k (insert l.route_id (add_request l (traffic_of by_id l.route_id m)) m)
        ≡ requests_of k m + (if same l.route_id k then 1 else 0))
      × (errors_of k (insert l.route_id (add_request l (traffic_of by_id l.route_id m)) m)
          ≡ errors_of k m + (if same l.route_id k && leb 400 l.status_code then 1 else 0))
unfolding add_request traffic_of new_traffic
requests_of-insert by_id l m k =
    let added = add_request l (traffic_of by_id l.route_id m) in
    ground (arith, lookup-insert l.route_id k added m, same_iff l.route_id k)

-- Counting logs adds to the traffic of every route the number of logs with its ID, and to its
-- errors the number of those with a status of 400 or more, whether the route still exists or not.
pub count_traffic-requests :
    (by_id : Map Route) (ls : List RequestLog) (m : Map RouteTraffic) (k : Text)
    → (requests_of k (count_traffic by_id ls m)
        ≡ requests_of k m + count_of (λ l. same l.route_id k) ls)
      × (errors_of k (count_traffic by_id ls m)
          ≡ errors_of k m + count_of (λ l. same l.route_id k && leb 400 l.status_code) ls)
unfolding count_traffic
count_traffic-requests by_id [] m k = (omega arith, omega arith)
count_traffic-requests by_id (l ∷ ls) m k =
    let m' = insert l.route_id (add_request l (traffic_of by_id l.route_id m)) m in
    let (requests, errors) = count_traffic-requests by_id ls m' k in
    let (more_requests, more_errors) = requests_of-insert by_id l m k in (omega arith, omega arith)
