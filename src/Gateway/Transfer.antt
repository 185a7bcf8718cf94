-- ===== src/Gateway/Transfer.antt =====
-- internal/service/export_service.go. Each item of an import comes with the identifiers and the
-- time that its creation draws.
pub mod Totals
use adaptive_api_routing_gat.Base.{ℕ, ◌+◌, ◌++◌, Text, codes, List, [], ◌∷◌, Result, ok, err, Error}
use adaptive_api_routing_gat.Base.Time.{Time}
use adaptive_api_routing_gat.Model.Services.{Service}
use adaptive_api_routing_gat.Model.Routes.{Route}
use adaptive_api_routing_gat.Model.Apps.{App}
use adaptive_api_routing_gat.Model.ApiKeys.{ApiKey}
use adaptive_api_routing_gat.Model.Rules.{RateLimitRule}
use adaptive_api_routing_gat.Store.Memory.{MemoryStore}
use adaptive_api_routing_gat.Store.Entities.{
  list_services, list_routes, list_apps, list_api_keys, list_rate_limit_rules,
}
use adaptive_api_routing_gat.Gateway.Admin.Services.{create_service}
use adaptive_api_routing_gat.Gateway.Admin.Rules.{create_rate_limit_rule}
use adaptive_api_routing_gat.Handler.Replies.{error_text}

pub record ConfigSnapshot : Type 0 where
  pub services : List Service
  pub routes : List Route
  pub apps : List App
  pub api_keys : List ApiKey
  pub rate_limit_rules : List RateLimitRule

unfoldable pub export_config : MemoryStore → ConfigSnapshot
export_config s = record {
  services = list_services s;
  routes = list_routes s;
  apps = list_apps s;
  api_keys = list_api_keys s;
  rate_limit_rules = list_rate_limit_rules s;
}

abbrev pub import_error : Text → Error → Text
import_error name e = name ++ (codes ": " ++ error_text e)

unfoldable pub import_services :
    List (Text × Text × Time × Service) → MemoryStore → MemoryStore × ℕ × List Text
import_services [] s = (s, 0, [])
import_services ((id, health_id, now, v) ∷ vs) s =
    let (s', result) = create_service id health_id now v s in
    let (s'', created, errs) = import_services vs s' in
    elim result [
      | ok _ ↦ (s'', created + 1, errs)
      | err e ↦ (s'', created, import_error v.name e ∷ errs)
    ]

unfoldable pub import_rate_limit_rules :
    List (Text × Time × RateLimitRule) → MemoryStore → MemoryStore × ℕ × List Text
import_rate_limit_rules [] s = (s, 0, [])
import_rate_limit_rules ((id, now, r) ∷ rs) s =
    let (s', result) = create_rate_limit_rule id now r s in
    let (s'', created, errs) = import_rate_limit_rules rs s' in
    elim result [
      | ok _ ↦ (s'', created + 1, errs)
      | err e ↦ (s'', created, import_error r.name e ∷ errs)
    ]
