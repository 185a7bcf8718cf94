-- ===== src/Gateway/Admin/Routes.antt =====
-- internal/service/route_service.go, but for `MatchRoute`. `upper` is `unicode.ToUpper`.
use adaptive_api_routing_gat.Base.{ℕ, Bool, Text, is_empty, ltb, select, if◌then◌else◌}
use adaptive_api_routing_gat.Base.Int.{ℤ}
use adaptive_api_routing_gat.Base.Time.{Time}
use adaptive_api_routing_gat.Base.Sort.{sort_slice}
use adaptive_api_routing_gat.Model.Routes.{Route, validate, RouteFilter, matches}
use adaptive_api_routing_gat.Store.Memory.{MemoryStore}
use adaptive_api_routing_gat.Store.Entities
use adaptive_api_routing_gat.Gateway.Paging.{Page, paginate}
use adaptive_api_routing_gat.Gateway.Admin.{Action, ◌>>=◌, ◌>>◌, pure, read, write, modify, check}

-- The rule of a route has to exist if one is named.
abbrev pub rule_exists : Text → Action (Unit {0})
rule_exists rule_id =
    if is_empty rule_id
    then pure tt
    else (do rule ← read (Entities.get_rate_limit_rule rule_id); pure tt)

abbrev pub stamped : Text → Time → Route → Route
stamped id now r = record r { id = id; created_at = now; updated_at = now }

unfoldable pub create_route : (upper : ℕ → ℕ) → Text → Time → Route → Action Route
create_route upper id now r = do
  let checked = validate upper r
  check checked.1
  service ← read (Entities.get_service checked.0.service_id)
  rule_exists checked.0.rate_limit_rule_id
  let created = stamped id now checked.0
  write (Entities.create_route created)
  pure created

unfoldable pub get_route : Text → Action Route
get_route id = read (Entities.get_route id)

abbrev newer : Route → Route → Bool
newer a b = ltb b.created_at a.created_at

unfoldable pub list_routes : RouteFilter → ℤ → ℤ → MemoryStore → Page Route
list_routes filter p size s =
    paginate (sort_slice newer (select (matches filter) (Entities.list_routes s))) p size

abbrev pub renewed : Time → Route → Route → Route
renewed now r exist = record exist {
  path = r.path;
  method = r.method;
  service_id = r.service_id;
  strip_prefix = r.strip_prefix;
  requires_auth = r.requires_auth;
  rate_limit_rule_id = r.rate_limit_rule_id;
  updated_at = now;
}

unfoldable pub update_route : (upper : ℕ → ℕ) → Text → Time → Route → Action Route
update_route upper id now r = do
  exist ← read (Entities.get_route id)
  let checked = validate upper (renewed now r exist)
  modify (Entities.assign_route id checked.0)
  check checked.1
  service ← read (Entities.get_service checked.0.service_id)
  rule_exists checked.0.rate_limit_rule_id
  write (Entities.update_route checked.0)
  pure checked.0

unfoldable pub delete_route : Text → Action (Unit {0})
delete_route id = write (Entities.delete_route id)
