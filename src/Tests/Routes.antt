-- ===== src/Tests/Routes.antt =====
-- Matching.
use adaptive_api_routing_gat.Base.{
  ◌≡◌, ◌↔◌, refl, none, some, [], ◌∷◌, In, here, there, In-cases, codes, same, inl, inr, has_prefix,
  len,
}
use adaptive_api_routing_gat.Model.Routes.{Route}
use adaptive_api_routing_gat.Store.Entities.{list_routes}
use adaptive_api_routing_gat.Gateway.Matching.{covers, match_routes, match_route}
use adaptive_api_routing_gat.Gateway.Matching.Longest.{IsLongest, match_route-IsLongest}
use adaptive_api_routing_gat.Gateway.Matching.Order.{match_route_order}
use adaptive_api_routing_gat.Tests.Tables.{store-IsConsistent}
use adaptive_api_routing_gat.Tests.Samples.{store, reordered, api_route, users_route}

match_route_users : match_route (codes "GET") (codes "/api/users/7") store ≡ some users_route
unfolding match_route match_routes list_routes same covers has_prefix len
match_route_users = refl

match_route-IsLongest_example :
    IsLongest (codes "GET") (codes "/api/users/7") (list_routes store) users_route
match_route-IsLongest_example =
    match_route-IsLongest (codes "GET") (codes "/api/users/7") store match_route_users

match_route_missed : match_route (codes "GET") (codes "/apis") store ≡ none
unfolding match_route match_routes list_routes same covers has_prefix
match_route_missed = refl

api_route-In : In api_route (list_routes store)
unfolding list_routes
api_route-In = here

In-swap : {a b r : Route} → In r (a ∷ b ∷ []) → In r (b ∷ a ∷ [])
In-swap i = elim (In-cases i) [
  | inl first ↦ rw first (there here)
  | inr j ↦ elim (In-cases j) [ inl second ↦ rw second here | inr k ↦ elim k [ ] ]
]

same_routes : (r : Route) → In r (list_routes store) ↔ In r (list_routes reordered)
unfolding list_routes
same_routes r = (λ i. In-swap i, λ i. In-swap i)

match_route_order_example :
    match_route (codes "GET") (codes "/api/users/7") store
    ≡ match_route (codes "GET") (codes "/api/users/7") reordered
match_route_order_example =
    match_route_order (codes "GET") (codes "/api/users/7") store reordered store-IsConsistent.routes
      same_routes
