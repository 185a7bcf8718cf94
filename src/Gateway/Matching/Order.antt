-- ===== src/Gateway/Matching/Order.antt =====
-- The order in which a map is visited does not change the route that is matched.
use adaptive_api_routing_gat.Base.{
  ◌≡◌, ◌↔◌, sym, ap, ◌∙◌, true, some, List, In, Text, codes, same, same_iff, len, has_prefix,
  prefix_of_len, has_prefix_left, has_prefix_refl, Bool-cases, Option-cases, inl, inr, arith,
}
use adaptive_api_routing_gat.Model.Routes.{Route}
use adaptive_api_routing_gat.Store.Entities.{route_clash, id_of_route, list_routes}
use adaptive_api_routing_gat.Store.Memory.{MemoryStore}
use adaptive_api_routing_gat.Store.Table.Laws.{IsTable, clash_unique}
use adaptive_api_routing_gat.Gateway.Matching.{covers, match_route}
use adaptive_api_routing_gat.Gateway.Matching.Longest.{
  Fits, IsLongest, match_route-IsLongest, match_route-none,
}

covers→prefix : (r : Route) (path : Text) → covers r path ≡ true → has_prefix path r.path ≡ true
unfolding covers
covers→prefix r path h = elim (Bool-cases (same path r.path)) [
  | inl whole ↦ rw ((same_iff path r.path).0 whole) (has_prefix_refl r.path)
  | inr part ↦ has_prefix_left path r.path (codes "/") (ground arith)
]

-- Two routes that fit one request and are equally long have the same path and method.
longest_clash :
    (method path : Text) (r q : Route)
    → Fits method path r
    → Fits method path q
    → len r.path ≡ len q.path
    → route_clash r q ≡ true
longest_clash method path r q (m, c) (m', c') e =
    let paths =
      prefix_of_len path r.path q.path (covers→prefix r path c) (covers→prefix q path c') e in
    ground (arith, same_iff r.path q.path, same_iff r.method q.method)

same_longest :
    (method path : Text) (rs qs : List Route) {r q : Route}
    → ((x y : Route) → In x rs → In y rs → route_clash x y ≡ true → x ≡ y)
    → ((x : Route) → In x rs ↔ In x qs)
    → IsLongest method path rs r
    → IsLongest method path qs q
    → r ≡ q
same_longest method path rs qs {r} {q} unique members a b =
    let q_listed = (members q).1 b.listed in
    let le = a.longest q q_listed b.fits in
    let ge = b.longest r ((members r).0 a.listed) a.fits in
    unique r q a.listed q_listed (longest_clash method path r q a.fits b.fits (omega arith))

-- Go visits a map in no fixed order, and this does not matter: two stores that hold the same
-- routes, none of which clash, answer every request with the same route.
pub match_route_order :
    (method path : Text) (s s' : MemoryStore)
    → IsTable id_of_route route_clash s.routes
    → ((r : Route) → In r (list_routes s) ↔ In r (list_routes s'))
    → match_route method path s ≡ match_route method path s'
unfolding list_routes
match_route_order method path s s' t members = elim (Option-cases (match_route method path s)) [
  | inl missed ↦ elim (Option-cases (match_route method path s')) [
    | inl missed' ↦ missed ∙ sym missed'
    | inr (q, found') ↦
        let b = match_route-IsLongest method path s' found' in
        absurd (match_route-none method path s q missed ((members q).1 b.listed) b.fits)
  ]
  | inr (r, found) ↦
      let a = match_route-IsLongest method path s found in
      elim (Option-cases (match_route method path s')) [
        | inl missed' ↦
            absurd (match_route-none method path s' r missed' ((members r).0 a.listed) a.fits)
        | inr (q, found') ↦
            let b = match_route-IsLongest method path s' found' in
            let unique =
              λ (x y : Route) (i : In x (list_routes s)) (j : In y (list_routes s))
                  (h : route_clash x y ≡ true).
                clash_unique id_of_route route_clash s.routes t i j h in
            found
            ∙ ap some (same_longest method path (list_routes s) (list_routes s') unique members a b)
            ∙ sym found'
      ]
]
