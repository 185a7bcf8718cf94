-- ===== src/Handler/Server/Reads.antt =====
-- The management requests that only read.
use adaptive_api_routing_gat.Base.{
  ◌≡◌, refl, sym, Bool, true, false, not, ◌&&◌, Bool-cases, inl, inr, Text, codes, has_prefix, any,
  any_of_In, In, arith,
}
use adaptive_api_routing_gat.Base.Int.{ℤ}
use adaptive_api_routing_gat.Gateway.{Gateway}
use adaptive_api_routing_gat.Gateway.Admin.Services
use adaptive_api_routing_gat.Gateway.Admin.Routes
use adaptive_api_routing_gat.Gateway.Admin.Apps
use adaptive_api_routing_gat.Gateway.Admin.Rules
use adaptive_api_routing_gat.Gateway.Admin.Health
use adaptive_api_routing_gat.Handler.Api.{respond}
use adaptive_api_routing_gat.Handler.Api.Services as ServiceApi
use adaptive_api_routing_gat.Handler.Api.Routes as RouteApi
use adaptive_api_routing_gat.Handler.Api.Apps as AppApi
use adaptive_api_routing_gat.Handler.Api.ApiKeys
use adaptive_api_routing_gat.Handler.Api.Rules as RuleApi
use adaptive_api_routing_gat.Handler.Api.Reports
use adaptive_api_routing_gat.Handler.Server.Endpoints.{
  Endpoint, admin_routes, System, WebRequest, ApiDraws, serve_endpoint,
}

abbrev is_read : Endpoint → Bool
is_read Endpoint.list_services = true
is_read Endpoint.get_service = true
is_read Endpoint.list_routes = true
is_read Endpoint.get_route = true
is_read Endpoint.list_apps = true
is_read Endpoint.get_app = true
is_read Endpoint.list_api_keys = true
is_read Endpoint.get_api_key = true
is_read Endpoint.list_rate_limit_rules = true
is_read Endpoint.get_rate_limit_rule = true
is_read Endpoint.list_request_logs = true
is_read Endpoint.get_request_log = true
is_read Endpoint.list_health_checks = true
is_read Endpoint.get_health_check = true
is_read Endpoint.get_stats = true
is_read Endpoint.export_config = true
is_read _ = false

-- A pattern for GET whose endpoint is not one of those.
abbrev is_odd : Text × Endpoint → Bool
is_odd (p, e) = has_prefix p (codes "GET ") && not (is_read e)

true-ne-false : true ≡ false → ⊥
true-ne-false p = cc

none_odd : any is_odd admin_routes ≡ false
unfolding has_prefix
none_odd = refl

get-is_read :
    (p : Text) (e : Endpoint)
    → In (p, e) admin_routes
    → has_prefix p (codes "GET ") ≡ true
    → is_read e ≡ true
get-is_read p e registered is_get = elim (Bool-cases (is_read e)) [
  | inl reads ↦ reads
  | inr writes ↦
      let odd = any_of_In is_odd admin_routes registered (rw (is_get, writes) refl) in
      absurd (ground (arith, none_odd))
]

module _ {R : Type 0} (sys : System) (max_size : ℤ) (r : WebRequest) (d : ApiDraws) where
  read-unchanged :
      (e : Endpoint) (value : Text) (g : Gateway R)
      → is_read e ≡ true
      → (serve_endpoint sys max_size r d e value g).0 ≡ g
  unfolding serve_endpoint respond ServiceApi.list_services ServiceApi.get_service
      RouteApi.list_routes RouteApi.get_route AppApi.list_apps AppApi.get_app ApiKeys.list_api_keys
      ApiKeys.get_api_key RuleApi.list_rate_limit_rules RuleApi.get_rate_limit_rule
      Reports.list_request_logs Reports.get_request_log Reports.list_health_checks
      Reports.get_health_check Reports.get_stats Reports.export_config Services.get_service
      Routes.get_route Apps.get_app Apps.get_api_key Rules.get_rate_limit_rule
      Health.get_request_log Health.get_health_check
  read-unchanged Endpoint.list_services value g h = refl
  read-unchanged Endpoint.get_service value g h = refl
  read-unchanged Endpoint.list_routes value g h = refl
  read-unchanged Endpoint.get_route value g h = refl
  read-unchanged Endpoint.list_apps value g h = refl
  read-unchanged Endpoint.get_app value g h = refl
  read-unchanged Endpoint.list_api_keys value g h = refl
  read-unchanged Endpoint.get_api_key value g h = refl
  read-unchanged Endpoint.list_rate_limit_rules value g h = refl
  read-unchanged Endpoint.get_rate_limit_rule value g h = refl
  read-unchanged Endpoint.list_request_logs value g h = refl
  read-unchanged Endpoint.get_request_log value g h = refl
  read-unchanged Endpoint.list_health_checks value g h = refl
  read-unchanged Endpoint.get_health_check value g h = refl
  read-unchanged Endpoint.get_stats value g h = refl
  read-unchanged Endpoint.export_config value g h = refl
  read-unchanged _ value g h = absurd (true-ne-false (sym h))

  -- A management request that is registered for GET changes neither the store nor the caches.
  pub get-unchanged :
      (p : Text) (e : Endpoint) (value : Text) (g : Gateway R)
      → In (p, e) admin_routes
      → has_prefix p (codes "GET ") ≡ true
      → (serve_endpoint sys max_size r d e value g).0 ≡ g
  get-unchanged p e value g registered is_get =
      read-unchanged e value g (get-is_read p e registered is_get)
