-- ===== src/Gateway/Matching.antt =====
-- `MatchRoute` of internal/service/route_service.go.
pub mod Longest
pub mod Order
use adaptive_api_routing_gat.Base.{
  ◌++◌, Bool, true, false, not, ◌||◌, ◌&&◌, Option, none, some, List, [], ◌∷◌, Text, codes, same,
  len, has_prefix, if◌then◌else◌,
}
use adaptive_api_routing_gat.Base.Int.{ℤ, pos, negsuc, ltb_ℤ}
use adaptive_api_routing_gat.Model.Routes.{Route}
use adaptive_api_routing_gat.Store.Memory.{MemoryStore}
use adaptive_api_routing_gat.Store.Entities.{list_routes}

-- `path == r.Path || strings.HasPrefix(path, r.Path+"/")`
unfoldable pub covers : Route → Text → Bool
covers r path = same path r.path || has_prefix path (r.path ++ codes "/")

-- The loop, with its two variables.
unfoldable pub match_from : Text → Text → ℤ → Option Route → List Route → Option Route
match_from method path best matched [] = matched
match_from method path best matched (r ∷ rs) = elim (not (same r.method method)) [
  | true ↦ match_from method path best matched rs
  | false ↦ elim (covers r path && ltb_ℤ best (pos (len r.path))) [
    | true ↦ match_from method path (pos (len r.path)) (some r) rs
    | false ↦ match_from method path best matched rs
  ]
]

unfoldable pub match_routes : Text → Text → List Route → Option Route
unfolding match_from
match_routes method path rs = match_from method path (negsuc 0) none rs

unfoldable pub match_route : Text → Text → MemoryStore → Option Route
match_route method path s = match_routes method path (list_routes s)
