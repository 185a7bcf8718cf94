-- ===== src/Store/Memory.antt =====
-- internal/store/memory.go: the state of the store.
use adaptive_api_routing_gat.Base.{Map, []}
use adaptive_api_routing_gat.Model.Services.{Service}
use adaptive_api_routing_gat.Model.Routes.{Route}
use adaptive_api_routing_gat.Model.Apps.{App}
use adaptive_api_routing_gat.Model.ApiKeys.{ApiKey}
use adaptive_api_routing_gat.Model.Rules.{RateLimitRule}
use adaptive_api_routing_gat.Model.Logs.{RequestLog}
use adaptive_api_routing_gat.Model.HealthChecks.{HealthCheck}

pub record MemoryStore : Type 0 where
  pub services : Map Service
  pub routes : Map Route
  pub apps : Map App
  pub api_keys : Map ApiKey
  pub rate_limit_rules : Map RateLimitRule
  pub request_logs : Map RequestLog
  pub health_checks : Map HealthCheck

abbrev pub new_memory_store : MemoryStore
new_memory_store = record {
  services = [];
  routes = [];
  apps = [];
  api_keys = [];
  rate_limit_rules = [];
  request_logs = [];
  health_checks = [];
}
