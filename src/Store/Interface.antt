-- ===== src/Store/Interface.antt =====
-- internal/store/store.go: the interface of a store, over an arbitrary state,
-- and the memory store as one of its implementations.
use adaptive_api_routing_gat.Base.{Text, List, Result, ok}
use adaptive_api_routing_gat.Model.Services.{Service}
use adaptive_api_routing_gat.Model.Routes.{Route}
use adaptive_api_routing_gat.Model.Apps.{App}
use adaptive_api_routing_gat.Model.ApiKeys.{ApiKey}
use adaptive_api_routing_gat.Model.Rules.{RateLimitRule}
use adaptive_api_routing_gat.Model.Logs.{RequestLog}
use adaptive_api_routing_gat.Model.HealthChecks.{HealthCheck}
use adaptive_api_routing_gat.Store.Memory.{MemoryStore}
use adaptive_api_routing_gat.Store.Entities
use adaptive_api_routing_gat.Store.Entities.{
  id_of_service, service_clash, id_of_route, route_clash, id_of_app, app_clash, id_of_api_key,
  api_key_clash, id_of_rate_limit_rule, rate_limit_rule_clash,
}
use adaptive_api_routing_gat.Store.Health

-- `Store`. A method that changes the state answers the new one, if it answers no error.
pub record Store (S : Type 0) : Type 0 where
  pub create_service : Service → S → Result S
  pub get_service : Text → S → Result Service
  pub get_service_by_name : Text → S → Result Service
  pub list_services : S → List Service
  pub update_service : Service → S → Result S
  pub delete_service : Text → S → Result S
  pub create_route : Route → S → Result S
  pub get_route : Text → S → Result Route
  pub list_routes : S → List Route
  pub update_route : Route → S → Result S
  pub delete_route : Text → S → Result S
  pub create_app : App → S → Result S
  pub get_app : Text → S → Result App
  pub get_app_by_name : Text → S → Result App
  pub list_apps : S → List App
  pub update_app : App → S → Result S
  pub delete_app : Text → S → Result S
  pub create_api_key : ApiKey → S → Result S
  pub get_api_key : Text → S → Result ApiKey
  pub get_api_key_by_key : Text → S → Result ApiKey
  pub list_api_keys : S → List ApiKey
  pub update_api_key : ApiKey → S → Result S
  pub delete_api_key : Text → S → Result S
  pub create_rate_limit_rule : RateLimitRule → S → Result S
  pub get_rate_limit_rule : Text → S → Result RateLimitRule
  pub list_rate_limit_rules : S → List RateLimitRule
  pub update_rate_limit_rule : RateLimitRule → S → Result S
  pub delete_rate_limit_rule : Text → S → Result S
  pub create_request_log : RequestLog → S → Result S
  pub get_request_log : Text → S → Result RequestLog
  pub list_request_logs : S → List RequestLog
  pub create_health_check : HealthCheck → S → Result S
  pub get_health_check : Text → S → Result HealthCheck
  pub get_health_check_by_service : Text → S → Result HealthCheck
  pub list_health_checks : S → List HealthCheck
  pub update_health_check : HealthCheck → S → Result S

-- What the memory store implements of it.
unfoldable pub memory_store : Store MemoryStore
memory_store = record {
  create_service = Entities.create_service;
  get_service = Entities.get_service;
  get_service_by_name = Entities.get_service_by_name;
  list_services = Entities.list_services;
  update_service = Entities.update_service;
  delete_service = Entities.delete_service;
  create_route = Entities.create_route;
  get_route = Entities.get_route;
  list_routes = Entities.list_routes;
  update_route = Entities.update_route;
  delete_route = Entities.delete_route;
  create_app = Entities.create_app;
  get_app = Entities.get_app;
  get_app_by_name = Entities.get_app_by_name;
  list_apps = Entities.list_apps;
  update_app = Entities.update_app;
  delete_app = Entities.delete_app;
  create_api_key = Entities.create_api_key;
  get_api_key = Entities.get_api_key;
  get_api_key_by_key = Entities.get_api_key_by_key;
  list_api_keys = Entities.list_api_keys;
  update_api_key = Entities.update_api_key;
  delete_api_key = Entities.delete_api_key;
  create_rate_limit_rule = Entities.create_rate_limit_rule;
  get_rate_limit_rule = Entities.get_rate_limit_rule;
  list_rate_limit_rules = Entities.list_rate_limit_rules;
  update_rate_limit_rule = Entities.update_rate_limit_rule;
  delete_rate_limit_rule = Entities.delete_rate_limit_rule;
  create_request_log = λ l s. ok (Health.create_request_log l s);
  get_request_log = Health.get_request_log;
  list_request_logs = Health.list_request_logs;
  create_health_check = λ h s. ok (Health.create_health_check h s);
  get_health_check = Health.get_health_check;
  get_health_check_by_service = Health.get_health_check_by_service;
  list_health_checks = Health.list_health_checks;
  update_health_check = Health.update_health_check;
}
