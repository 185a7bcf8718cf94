-- ===== src/Handler/Server/Endpoints.antt =====
-- The patterns that the `register…Routes` methods of internal/handler give to the mux of the
-- management API, and the handler of each.
use adaptive_api_routing_gat.Base.{
  ℕ, ◌≤◌, ◌≡◌, true, ◌++◌, Text, codes, has_prefix, len, Option, List, [], ◌∷◌, In, any, false,
  ◌||◌, ◌==◌,
}
use adaptive_api_routing_gat.Base.Int.{ℤ}
use adaptive_api_routing_gat.Base.Time.{Time}
use adaptive_api_routing_gat.Model.Services.{Service}
use adaptive_api_routing_gat.Model.Rules.{RateLimitRule}
use adaptive_api_routing_gat.Gateway.Admin.Health.{Network}
use adaptive_api_routing_gat.Handler.Replies.{Reply}
use adaptive_api_routing_gat.Handler.Proxy.{Request}
use adaptive_api_routing_gat.Handler.Api.{Decoded, Query, ApiHandler}
use adaptive_api_routing_gat.Handler.Api.Services
use adaptive_api_routing_gat.Handler.Api.Services.{ServiceRequest}
use adaptive_api_routing_gat.Handler.Api.Routes
use adaptive_api_routing_gat.Handler.Api.Routes.{RouteRequest}
use adaptive_api_routing_gat.Handler.Api.Apps
use adaptive_api_routing_gat.Handler.Api.Apps.{AppRequest}
use adaptive_api_routing_gat.Handler.Api.ApiKeys
use adaptive_api_routing_gat.Handler.Api.ApiKeys.{ApiKeyRequest, ApiKeyStatusRequest}
use adaptive_api_routing_gat.Handler.Api.Rules
use adaptive_api_routing_gat.Handler.Api.Rules.{RateLimitRuleRequest}
use adaptive_api_routing_gat.Handler.Api.Reports
use adaptive_api_routing_gat.Handler.Api.Reports.{Draws}

-- What a mux makes of a request: one of the handlers that are registered, with the value of the
-- wildcard of its pattern, or a reply of its own (not found, method not allowed, a redirection).
pub data Picked (E : Type 0) : Type 0 where
  by_mux : Reply → Picked E
  to : E → (value : Text) → Picked E

-- `http.ServeMux`: the registered patterns with their handlers, the method and the path as it was
-- sent, whose segments it decodes one by one.
pub record Mux : Type 1 where
  pub pick : {E : Type 0} → List (Text × E) → (method path : Text) → Picked E

-- A pattern without a method, wildcards or escapes that matches the paths below it.
abbrev pub IsSubtree : Text → Type 0
IsSubtree p =
    (has_prefix p (codes "/") ≡ true)
    × ((q : Text) × (p ≡ q ++ codes "/"))
    × (any (λ c. c == 123 || c == 37) p ≡ false)

-- What `net/http` documents of the precedence: a handler that is picked is registered, and under a
-- pattern at least as long as each subtree pattern without wildcards that the path, as it was sent,
-- starts with.
pub record IsMux (mux : Mux) : Type 1 where
  pub most_specific :
      {E : Type 0} (es : List (Text × E)) (method path : Text) {e : E} {value : Text}
      → mux.pick es method path ≡ to e value
      → (p : Text) (e' : E) → In (p, e') es
      → IsSubtree p
      → has_prefix path p ≡ true
      → (q : Text) × In (q, e) es × (len p ≤ len q)

pub data Endpoint : Type 0 where
  create_service list_services get_service update_service delete_service : Endpoint
  create_route list_routes get_route update_route delete_route : Endpoint
  create_app list_apps get_app update_app delete_app : Endpoint
  create_api_key list_api_keys get_api_key update_api_key_status delete_api_key : Endpoint
  create_rate_limit_rule list_rate_limit_rules get_rate_limit_rule : Endpoint
  update_rate_limit_rule delete_rate_limit_rule : Endpoint
  list_request_logs get_request_log : Endpoint
  list_health_checks probe_service get_health_check : Endpoint
  get_stats export_config import_services import_rate_limit_rules : Endpoint

abbrev pub service_routes : List (Text × Endpoint)
service_routes =
    (codes "POST /api/services", create_service)
    ∷ (codes "GET /api/services", list_services)
    ∷ (codes "GET /api/services/{id}", get_service)
    ∷ (codes "PUT /api/services/{id}", update_service)
    ∷ (codes "DELETE /api/services/{id}", delete_service)
    ∷ []

abbrev pub route_routes : List (Text × Endpoint)
route_routes =
    (codes "POST /api/routes", create_route)
    ∷ (codes "GET /api/routes", list_routes)
    ∷ (codes "GET /api/routes/{id}", get_route)
    ∷ (codes "PUT /api/routes/{id}", update_route)
    ∷ (codes "DELETE /api/routes/{id}", delete_route)
    ∷ []

abbrev pub app_routes : List (Text × Endpoint)
app_routes =
    (codes "POST /api/apps", create_app)
    ∷ (codes "GET /api/apps", list_apps)
    ∷ (codes "GET /api/apps/{id}", get_app)
    ∷ (codes "PUT /api/apps/{id}", update_app)
    ∷ (codes "DELETE /api/apps/{id}", delete_app)
    ∷ []

abbrev pub api_key_routes : List (Text × Endpoint)
api_key_routes =
    (codes "POST /api/api-keys", create_api_key)
    ∷ (codes "GET /api/api-keys", list_api_keys)
    ∷ (codes "GET /api/api-keys/{id}", get_api_key)
    ∷ (codes "PATCH /api/api-keys/{id}/status", update_api_key_status)
    ∷ (codes "DELETE /api/api-keys/{id}", delete_api_key)
    ∷ []

abbrev pub rate_limit_rule_routes : List (Text × Endpoint)
rate_limit_rule_routes =
    (codes "POST /api/rate-limit-rules", create_rate_limit_rule)
    ∷ (codes "GET /api/rate-limit-rules", list_rate_limit_rules)
    ∷ (codes "GET /api/rate-limit-rules/{id}", get_rate_limit_rule)
    ∷ (codes "PUT /api/rate-limit-rules/{id}", update_rate_limit_rule)
    ∷ (codes "DELETE /api/rate-limit-rules/{id}", delete_rate_limit_rule)
    ∷ []

abbrev pub request_log_routes : List (Text × Endpoint)
request_log_routes =
    (codes "GET /api/logs", list_request_logs) ∷ (codes "GET /api/logs/{id}", get_request_log) ∷ []

abbrev pub health_routes : List (Text × Endpoint)
health_routes =
    (codes "GET /api/health", list_health_checks)
    ∷ (codes "POST /api/health/{serviceId}/probe", probe_service)
    ∷ (codes "GET /api/health/{serviceId}", get_health_check)
    ∷ []

abbrev pub stats_routes : List (Text × Endpoint)
stats_routes = (codes "GET /api/stats", get_stats) ∷ []

abbrev pub export_routes : List (Text × Endpoint)
export_routes =
    (codes "GET /api/export", export_config)
    ∷ (codes "POST /api/import/services", import_services)
    ∷ (codes "POST /api/import/rate-limit-rules", import_rate_limit_rules)
    ∷ []

abbrev pub admin_routes : List (Text × Endpoint)
admin_routes =
    service_routes
    ++ (route_routes
        ++ (app_routes
            ++ (api_key_routes
                ++ (rate_limit_rule_routes
                    ++ (request_log_routes
                        ++ (health_routes ++ (stats_routes ++ export_routes)))))))

-- The libraries that the handlers use: the decoding of a body for each kind of request, the case
-- of a letter, the reading of a time, and the network of a probe.
pub record System : Type 0 where
  pub decode_service : Text → Decoded ServiceRequest
  pub decode_route : Text → Decoded RouteRequest
  pub decode_app : Text → Decoded AppRequest
  pub decode_api_key : Text → Decoded ApiKeyRequest
  pub decode_status : Text → Decoded ApiKeyStatusRequest
  pub decode_rule : Text → Decoded RateLimitRuleRequest
  pub decode_services : Text → Decoded (List Service)
  pub decode_rules : Text → Decoded (List RateLimitRule)
  pub lower : ℕ → ℕ
  pub upper : ℕ → ℕ
  pub parse_time : Text → Option Time
  pub network : Network

pub record WebRequest : Type 0 where
  pub request : Request
  pub admin_token : Text
  pub query : Query
  pub body : Text

-- The identifiers and times that a management request draws.
pub record ApiDraws : Type 0 where
  pub id : Text
  pub second_id : Text
  pub now : Time
  pub validated_at : Time
  pub imports : Draws

abbrev key_draws : ApiDraws → ApiKeys.KeyDraws
key_draws d = record {
  id = d.id;
  hex = d.second_id;
  created_at = d.now;
  validated_at = d.validated_at;
}

-- The handler of an endpoint; `value` is that of the wildcard.
module _ {R : Type 0} (sys : System) (max_size : ℤ) (r : WebRequest) (d : ApiDraws) where
  unfoldable pub serve_endpoint : Endpoint → (value : Text) → ApiHandler R
  serve_endpoint create_service _ =
      Services.create_service (sys.decode_service r.body) d.id d.second_id d.now
  serve_endpoint list_services _ = Services.list_services sys.lower r.query max_size
  serve_endpoint get_service value = Services.get_service value
  serve_endpoint update_service value =
      Services.update_service (sys.decode_service r.body) value d.now
  serve_endpoint delete_service value = Services.delete_service value
  serve_endpoint create_route _ = Routes.create_route sys.upper (sys.decode_route r.body) d.id d.now
  serve_endpoint list_routes _ = Routes.list_routes r.query max_size
  serve_endpoint get_route value = Routes.get_route value
  serve_endpoint update_route value =
      Routes.update_route sys.upper (sys.decode_route r.body) value d.now
  serve_endpoint delete_route value = Routes.delete_route value
  serve_endpoint create_app _ = Apps.create_app (sys.decode_app r.body) d.id d.now
  serve_endpoint list_apps _ = Apps.list_apps r.query max_size
  serve_endpoint get_app value = Apps.get_app value
  serve_endpoint update_app value = Apps.update_app (sys.decode_app r.body) value d.now
  serve_endpoint delete_app value = Apps.delete_app value
  serve_endpoint create_api_key _ =
      ApiKeys.create_api_key sys.parse_time (sys.decode_api_key r.body) (key_draws d)
  serve_endpoint list_api_keys _ = ApiKeys.list_api_keys r.query max_size
  serve_endpoint get_api_key value = ApiKeys.get_api_key value
  serve_endpoint update_api_key_status value =
      ApiKeys.update_api_key_status (sys.decode_status r.body) value
  serve_endpoint delete_api_key value = ApiKeys.delete_api_key value
  serve_endpoint create_rate_limit_rule _ =
      Rules.create_rate_limit_rule (sys.decode_rule r.body) d.id d.now
  serve_endpoint list_rate_limit_rules _ = Rules.list_rate_limit_rules r.query max_size
  serve_endpoint get_rate_limit_rule value = Rules.get_rate_limit_rule value
  serve_endpoint update_rate_limit_rule value =
      Rules.update_rate_limit_rule (sys.decode_rule r.body) value d.now
  serve_endpoint delete_rate_limit_rule value = Rules.delete_rate_limit_rule value
  serve_endpoint list_request_logs _ = Reports.list_request_logs r.query max_size
  serve_endpoint get_request_log value = Reports.get_request_log value
  serve_endpoint list_health_checks _ = Reports.list_health_checks r.query max_size
  serve_endpoint probe_service value = Reports.probe_service sys.network d.id d.now value
  serve_endpoint get_health_check value = Reports.get_health_check value
  serve_endpoint get_stats _ = Reports.get_stats
  serve_endpoint export_config _ = Reports.export_config
  serve_endpoint import_services _ = Reports.import_services (sys.decode_services r.body) d.imports
  serve_endpoint import_rate_limit_rules _ =
      Reports.import_rate_limit_rules (sys.decode_rules r.body) d.imports
