-- ===== src/Tests/Samples.antt =====
-- Two services with three routes, an app with a key, a rule.
use adaptive_api_routing_gat.Base.{Text, codes, [], ◌∷◌, Bool, true, false}
use adaptive_api_routing_gat.Base.Int.{pos}
use adaptive_api_routing_gat.Model.Services.{Service, service_active}
use adaptive_api_routing_gat.Model.Routes.{Route}
use adaptive_api_routing_gat.Model.Apps.{App, app_active}
use adaptive_api_routing_gat.Model.ApiKeys.{ApiKey, api_key_active}
use adaptive_api_routing_gat.Model.Rules.{RateLimitRule}
use adaptive_api_routing_gat.Store.Memory.{MemoryStore, new_memory_store}

abbrev pub service_named : Text → Text → Text → Service
service_named id name base_url = record {
  id = id;
  name = name;
  base_url = base_url;
  timeout = pos 5;
  retries = pos 0;
  status = service_active;
  created_at = 1;
  updated_at = 1;
}

abbrev pub users : Service
users = service_named (codes "s1") (codes "users") (codes "http://users")

abbrev pub orders : Service
orders = service_named (codes "s2") (codes "orders") (codes "http://orders")

abbrev pub route_to : Text → Text → Text → Bool → Text → Route
route_to id path service_id requires_auth rule_id = record {
  id = id;
  path = path;
  method = codes "GET";
  service_id = service_id;
  strip_prefix = true;
  requires_auth = requires_auth;
  rate_limit_rule_id = rule_id;
  created_at = 1;
  updated_at = 1;
}

abbrev pub api_route : Route
api_route = route_to (codes "r1") (codes "/api") (codes "s2") false []

abbrev pub users_route : Route
users_route = route_to (codes "r2") (codes "/api/users") (codes "s1") true (codes "l1")

abbrev pub app : App
app = record {
  id = codes "a1";
  name = codes "shop";
  status = app_active;
  created_at = 1;
  updated_at = 1;
}

abbrev pub key : ApiKey
key = record {
  id = codes "k1";
  app_id = codes "a1";
  key = codes "secret";
  secret = [];
  status = api_key_active;
  created_at = 1;
  expires_at = 100;
}

abbrev pub rule : RateLimitRule
rule = record {
  id = codes "l1";
  name = codes "slow";
  limit = pos 2;
  window = pos 60;
  created_at = 1;
  updated_at = 1;
}

abbrev pub store : MemoryStore
store = record new_memory_store {
  services = (codes "s1", users) ∷ (codes "s2", orders) ∷ [];
  routes = (codes "r1", api_route) ∷ (codes "r2", users_route) ∷ [];
  apps = (codes "a1", app) ∷ [];
  api_keys = (codes "k1", key) ∷ [];
  rate_limit_rules = (codes "l1", rule) ∷ [];
}

-- The same routes, visited in the other order.
abbrev pub reordered : MemoryStore
reordered = record store { routes = (codes "r2", users_route) ∷ (codes "r1", api_route) ∷ [] }
