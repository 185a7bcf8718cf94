-- ===== src/Gateway/Stats/Busiest.antt =====
-- The routes that the statistics list.
use adaptive_api_routing_gat.Base.{
  ℕ, ◌≤◌, ◌≡◌, sym, ap, ◌∙◌, ◌⊎◌, inl, inr, some, Option-cases, Bool-cases, none, none-ne-some,
  refl, same→eq, same_refl, Text, same, Map, lookup, insert, lookup_of_In, In-lookup, List, [], ◌∷◌,
  In, values, length, length-take, take, count_of, arith,
}
use adaptive_api_routing_gat.Base.Sort.{sort_slice}
use adaptive_api_routing_gat.Base.Sort.Order.{
  IsDescending, sort_slice-In, In-sort_slice, sort_slice-IsDescending, take-IsDescending,
  take-largest, In-take, count_of-take, count_of-sort_slice, take-cases,
}
use adaptive_api_routing_gat.Model.Routes.{Route}
use adaptive_api_routing_gat.Model.Logs.{RequestLog}
use adaptive_api_routing_gat.Store.Memory.{MemoryStore}
use adaptive_api_routing_gat.Store.Health.{list_request_logs}
use adaptive_api_routing_gat.Store.Entities.{list_routes}
use adaptive_api_routing_gat.Store.Sound.{IsKeyed, empty-IsKeyed, insert-IsKeyed}
use adaptive_api_routing_gat.Gateway.Stats.{
  RouteTraffic, add_request, new_traffic, traffic_of, count_traffic, busier, routes_by_id,
  get_gateway_stats,
}
use adaptive_api_routing_gat.Gateway.Stats.Counts.{requests_of, count_traffic-requests}

abbrev route_of : RouteTraffic → Text
route_of t = t.route_id

abbrev requests : RouteTraffic → ℕ
requests t = t.requests

-- The number of logs of a route.
abbrev pub logs_of : Text → List RequestLog → ℕ
logs_of k ls = count_of (λ l. same l.route_id k) ls

-- A route has an entry in a list of traffic.
abbrev pub Lists : Text → List RouteTraffic → Type 0
Lists k top = (t : RouteTraffic) × In t top × (t.route_id ≡ k)

-- The list is that of the ten busiest routes of the logs, or of all that have logs if these are
-- fewer, each once and the busiest first.
pub record IsBusiest (ls : List RequestLog) (top : List RouteTraffic) : Type 0 where
  pub at_most_ten : length top ≤ 10
  pub once : (k : Text) → count_of (λ t. same t.route_id k) top ≤ 1
  pub full : (length top ≡ 10) ⊎ ((k : Text) → 1 ≤ logs_of k ls → Lists k top)
  pub descending : IsDescending requests top
  pub counted : (t : RouteTraffic) → In t top → t.requests ≡ logs_of t.route_id ls
  pub busiest :
      (t : RouteTraffic) → In t top → (k : Text) → Lists k top ⊎ (logs_of k ls ≤ t.requests)

traffic_of-route :
    (by_id : Map Route) (k : Text) (m : Map RouteTraffic)
    → IsKeyed route_of m
    → (traffic_of by_id k m).route_id ≡ k
unfolding traffic_of new_traffic
traffic_of-route by_id k m h = elim (Option-cases (lookup k m)) [
  | inl fresh ↦ ground arith
  | inr (t, found) ↦ let at_k = h.keyed k t found in ground arith
]

count_traffic-IsKeyed :
    (by_id : Map Route) (ls : List RequestLog) (m : Map RouteTraffic)
    → IsKeyed route_of m
    → IsKeyed route_of (count_traffic by_id ls m)
unfolding count_traffic add_request
count_traffic-IsKeyed by_id [] m h = h
count_traffic-IsKeyed by_id (l ∷ ls) m h =
    let t = add_request l (traffic_of by_id l.route_id m) in
    count_traffic-IsKeyed by_id ls (insert l.route_id t m)
      (insert-IsKeyed route_of l.route_id t m (traffic_of-route by_id l.route_id m h) h)

IsKeyed-tail :
    (j : Text) (v : RouteTraffic) (m : Map RouteTraffic)
    → IsKeyed route_of ((j, v) ∷ m)
    → IsKeyed route_of m
unfolding lookup
IsKeyed-tail j v m h = record {
  keyed = λ k w e. elim (Bool-cases (same j k)) [
    | inl hit ↦
        let j_is_k = same→eq j k hit in
        let gone : lookup k m ≡ none = rw (← j_is_k) h.distinct.0 in
        absurd (none-ne-some (sym gone ∙ e))
    | inr miss ↦ h.keyed k w (rw miss e)
  ];
  distinct = h.distinct.1;
}

head-route :
    (j : Text) (v : RouteTraffic) (m : Map RouteTraffic)
    → IsKeyed route_of ((j, v) ∷ m)
    → v.route_id ≡ j
unfolding lookup
head-route j v m h = h.keyed j v (rw (same_refl j) refl)

count_of-none :
    (k : Text) (m : Map RouteTraffic)
    → IsKeyed route_of m
    → lookup k m ≡ none
    → count_of (λ t. same t.route_id k) (values m) ≡ 0
unfolding lookup
count_of-none k [] h e = refl
count_of-none k ((j, v) ∷ m) h e =
    let route = head-route j v m h in
    let rest = count_of-none k m (IsKeyed-tail j v m h) in
    elim (Bool-cases (same j k)) [
      | inl hit ↦ absurd (none-ne-some (sym (rw hit at e)))
      | inr miss ↦ rw (route, miss) (omega (arith, rest (rw miss at e)))
    ]

-- A table that is keyed by the route has each route once.
count_of-le :
    (k : Text) (m : Map RouteTraffic)
    → IsKeyed route_of m
    → count_of (λ t. same t.route_id k) (values m) ≤ 1
count_of-le k [] h = omega arith
count_of-le k ((j, v) ∷ m) h =
    let route = head-route j v m h in
    let tail = IsKeyed-tail j v m h in
    let rest = count_of-le k m tail in
    elim (Bool-cases (same j k)) [
      | inl hit ↦
          let gone = rw (same→eq j k hit) at h.distinct.0 in
          let none_left = count_of-none k m tail gone in rw (route, hit) (omega arith)
      | inr miss ↦ rw (route, miss) (omega (arith, rest))
    ]

module _ (by_id : Map Route) (ls : List RequestLog) where
  traffic : Map RouteTraffic
  traffic = count_traffic by_id ls []

  traffic-IsKeyed : IsKeyed route_of traffic
  unfolding traffic
  traffic-IsKeyed = count_traffic-IsKeyed by_id ls [] (empty-IsKeyed route_of)

  requests_of-traffic : (k : Text) → requests_of k traffic ≡ logs_of k ls
  unfolding traffic lookup
  requests_of-traffic k = (count_traffic-requests by_id ls [] k).0 ∙ omega arith

  found-requests :
      (k : Text) (t : RouteTraffic) → lookup k traffic ≡ some t → t.requests ≡ logs_of k ls
  found-requests k t found = rw (found, requests_of) at (requests_of-traffic k)

  sorted : List RouteTraffic
  sorted = sort_slice busier (values traffic)

  top_counted : (t : RouteTraffic) → In t (take 10 sorted) → t.requests ≡ logs_of t.route_id ls
  unfolding sorted
  top_counted t i =
      let (k, found) =
        lookup_of_In traffic traffic-IsKeyed.distinct
          (In-sort_slice busier (values traffic) (In-take 10 sorted i)) in
      found-requests k t found ∙ ap (λ j. logs_of j ls) (sym (traffic-IsKeyed.keyed k t found))

  top_busiest :
      (t : RouteTraffic)
      → In t (take 10 sorted)
      → (k : Text) → Lists k (take 10 sorted) ⊎ (logs_of k ls ≤ t.requests)
  unfolding sorted
  top_busiest t i k = elim (Option-cases (lookup k traffic)) [
    | inl idle ↦
        inr (let none_logged = rw (idle, requests_of) at (requests_of-traffic k) in omega arith)
    | inr (u, found) ↦
        let j = sort_slice-In busier (values traffic) (In-lookup k traffic found) in
        elim (take-largest requests 10 sorted (sort_slice-IsDescending requests (values traffic)) i
          j) [
            | inl listed ↦ inl (u, listed, traffic-IsKeyed.keyed k u found)
            | inr le ↦ inr (let same_count = found-requests k u found in omega arith)
          ]
  ]

  top_once : (k : Text) → count_of (λ t. same t.route_id k) (take 10 sorted) ≤ 1
  unfolding sorted
  top_once k =
      let taken = count_of-take (λ (t : RouteTraffic). same t.route_id k) 10 sorted in
      let all =
        count_of-sort_slice busier (λ (t : RouteTraffic). same t.route_id k) (values traffic) in
      let each = count_of-le k traffic traffic-IsKeyed in omega arith

  top_full :
      (length (take 10 sorted) ≡ 10) ⊎ ((k : Text) → 1 ≤ logs_of k ls → Lists k (take 10 sorted))
  unfolding sorted
  top_full = elim (take-cases 10 sorted) [
    | inl ten ↦ inl ten
    | inr whole ↦ inr λ k busy. elim (Option-cases (lookup k traffic)) [
      | inl idle ↦
          let none_logged = rw (idle, requests_of) at (requests_of-traffic k) in
          absurd (omega arith)
      | inr (t, found) ↦ (
        t,
        rw whole (sort_slice-In busier (values traffic) (In-lookup k traffic found)),
        traffic-IsKeyed.keyed k t found,
      )
    ]
  ]

-- The statistics list ten routes, or every route that has logs if these are fewer, each once, in the
-- descending order of their requests; the requests of each are the logs with its ID, and a route
-- that is not listed has no more logs than any that is.
pub get_gateway_stats-IsBusiest :
    (s : MemoryStore) → IsBusiest (list_request_logs s) (get_gateway_stats s).top_routes
unfolding get_gateway_stats traffic sorted
get_gateway_stats-IsBusiest s =
    let by_id = routes_by_id (list_routes s) [] in
    let ls = list_request_logs s in
    record {
      at_most_ten = omega (arith, length-take 10 (sorted by_id ls));
      once = top_once by_id ls;
      full = top_full by_id ls;
      descending =
          take-IsDescending requests 10 (sorted by_id ls)
            (sort_slice-IsDescending requests (values (traffic by_id ls)));
      counted = top_counted by_id ls;
      busiest = top_busiest by_id ls;
    }
