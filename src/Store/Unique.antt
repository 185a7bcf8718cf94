-- ===== src/Store/Unique.antt =====
-- The writes of the store as data, and the invariant on its seven tables: entities are stored under
-- their own IDs, no two services, apps or
-- rules share a name, no two keys a key text, and no two routes a path and a method.
pub mod Fields
pub mod Writes
use adaptive_api_routing_gat.Base.{
  ◌≡◌, refl, Bool, true, ◌&&◌, Text, same, same_iff, List, [], ◌∷◌, Map, Result, ok, err,
  Result-cases, inl, inr, arith,
}
use adaptive_api_routing_gat.Model.Services.{Service}
use adaptive_api_routing_gat.Model.Routes.{Route}
use adaptive_api_routing_gat.Model.Apps.{App}
use adaptive_api_routing_gat.Model.ApiKeys.{ApiKey}
use adaptive_api_routing_gat.Model.Rules.{RateLimitRule}
use adaptive_api_routing_gat.Model.Logs.{RequestLog}
use adaptive_api_routing_gat.Model.HealthChecks.{HealthCheck}
use adaptive_api_routing_gat.Store.Sound.{IsKeyed, id_of_request_log, id_of_health_check}
use adaptive_api_routing_gat.Store.Memory.{MemoryStore, new_memory_store}
use adaptive_api_routing_gat.Store.Table.{create, update, remove}
use adaptive_api_routing_gat.Store.Table.Laws.{
  IsTable, empty-IsTable, create-IsTable, update-IsTable, remove-IsTable_of_ok,
}
use adaptive_api_routing_gat.Store.Entities.{
  id_of_service, service_clash, create_service, update_service, delete_service, id_of_route,
  route_clash, create_route, update_route, delete_route, id_of_app, app_clash, create_app,
  update_app, delete_app, id_of_api_key, api_key_clash, create_api_key, update_api_key,
  delete_api_key, id_of_rate_limit_rule, rate_limit_rule_clash, create_rate_limit_rule,
  update_rate_limit_rule, delete_rate_limit_rule,
}
use adaptive_api_routing_gat.Store.Health.{
  create_health_check, update_health_check, create_request_log,
}

pub data Write : Type 0 where
  new_service : Service → Write
  set_service : Service → Write
  drop_service : Text → Write
  new_route : Route → Write
  set_route : Route → Write
  drop_route : Text → Write
  new_app : App → Write
  set_app : App → Write
  drop_app : Text → Write
  new_api_key : ApiKey → Write
  set_api_key : ApiKey → Write
  drop_api_key : Text → Write
  new_rate_limit_rule : RateLimitRule → Write
  set_rate_limit_rule : RateLimitRule → Write
  drop_rate_limit_rule : Text → Write
  new_health_check : HealthCheck → Write
  set_health_check : HealthCheck → Write
  new_request_log : RequestLog → Write

unfoldable pub write : Write → MemoryStore → Result MemoryStore
write (new_service v) s = create_service v s
write (set_service v) s = update_service v s
write (drop_service id) s = delete_service id s
write (new_route v) s = create_route v s
write (set_route v) s = update_route v s
write (drop_route id) s = delete_route id s
write (new_app v) s = create_app v s
write (set_app v) s = update_app v s
write (drop_app id) s = delete_app id s
write (new_api_key v) s = create_api_key v s
write (set_api_key v) s = update_api_key v s
write (drop_api_key id) s = delete_api_key id s
write (new_rate_limit_rule v) s = create_rate_limit_rule v s
write (set_rate_limit_rule v) s = update_rate_limit_rule v s
write (drop_rate_limit_rule id) s = delete_rate_limit_rule id s
write (new_health_check h) s = ok (create_health_check h s)
write (set_health_check h) s = update_health_check h s
write (new_request_log l) s = ok (create_request_log l s)

abbrev kept : Result MemoryStore → MemoryStore → MemoryStore
kept (ok s') s = s'
kept (err _) s = s

-- The store after a sequence of writes. A refused write changes nothing.
unfoldable pub run : List Write → MemoryStore → MemoryStore
run [] s = s
run (w ∷ ws) s = run ws (kept (write w s) s)

pub record IsConsistent (s : MemoryStore) : Type 0 where
  pub services : IsTable id_of_service service_clash s.services
  pub routes : IsTable id_of_route route_clash s.routes
  pub apps : IsTable id_of_app app_clash s.apps
  pub api_keys : IsTable id_of_api_key api_key_clash s.api_keys
  pub rate_limit_rules : IsTable id_of_rate_limit_rule rate_limit_rule_clash s.rate_limit_rules
  pub request_logs : IsKeyed id_of_request_log s.request_logs
  pub health_checks : IsKeyed id_of_health_check s.health_checks
