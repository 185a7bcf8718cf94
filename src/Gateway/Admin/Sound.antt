-- ===== src/Gateway/Admin/Sound.antt =====
-- Every operation on services, routes, rules, logs and health checks keeps the store sound.
pub mod Keys
pub mod Probes
use adaptive_api_routing_gat.Base.{
  ℕ, ◌≡◌, refl, ◌∙◌, Option-cases, inl, inr, Text, lookup, insert, delete, arith,
}
use adaptive_api_routing_gat.Base.Time.{Time}
use adaptive_api_routing_gat.Model.Services
use adaptive_api_routing_gat.Model.Services.{Service}
use adaptive_api_routing_gat.Model.Routes
use adaptive_api_routing_gat.Model.Routes.{Route}
use adaptive_api_routing_gat.Model.Rules
use adaptive_api_routing_gat.Model.Rules.{RateLimitRule}
use adaptive_api_routing_gat.Model.Logs.{RequestLog}
use adaptive_api_routing_gat.Model.HealthChecks.{HealthCheck, record_probe}
use adaptive_api_routing_gat.Store.Memory.{MemoryStore}
use adaptive_api_routing_gat.Store.Table.{create, update, remove, get, find}
use adaptive_api_routing_gat.Store.Entities
use adaptive_api_routing_gat.Store.Entities.{id_of_service, id_of_route, id_of_rate_limit_rule}
use adaptive_api_routing_gat.Store.Health
use adaptive_api_routing_gat.Store.Sound.{
  insert-IsKeyed, delete-IsKeyed, IsSound, id_of_health_check, id_of_request_log,
}
use adaptive_api_routing_gat.Gateway.Admin.Services as ServiceAdmin
use adaptive_api_routing_gat.Gateway.Admin.Routes as RouteAdmin
use adaptive_api_routing_gat.Gateway.Admin.Rules as RuleAdmin
use adaptive_api_routing_gat.Gateway.Admin.Health as HealthAdmin

service-id : (v : Service) → (Services.validate v).0.id ≡ v.id
unfolding Services.validate
service-id v = ground arith

route-id : (upper : ℕ → ℕ) (r : Route) → (Routes.validate upper r).0.id ≡ r.id
unfolding Routes.validate
route-id upper r = ground arith

rule-id : (r : RateLimitRule) → (Rules.validate r).0.id ≡ r.id
unfolding Rules.validate
rule-id r = ground arith

module _ (s : MemoryStore) (h : IsSound s) where
  pub create_service-IsSound :
      (id health_id : Text) (now : Time) (v : Service)
      → IsSound (ServiceAdmin.create_service id health_id now v s).0
  unfolding ServiceAdmin.create_service Entities.create_service create Health.create_health_check
  create_service-IsSound id health_id now v =
      let created = ServiceAdmin.stamped id now (Services.validate v).0 in
      let checked = ServiceAdmin.initial_health_check health_id id now in
      ground (
        arith,
        insert-IsKeyed id_of_service id created s.services,
        insert-IsKeyed id_of_health_check health_id checked s.health_checks,
      )

  pub update_service-IsSound :
      (id : Text) (now : Time) (v : Service) → IsSound (ServiceAdmin.update_service id now v s).0
  unfolding ServiceAdmin.update_service Entities.update_service Entities.get_service get update
      Entities.assign_service
  update_service-IsSound id now v = elim (Option-cases (lookup id s.services)) [
    | inl missing ↦ ground arith
    | inr (exist, found) ↦
        let v' = (Services.validate (ServiceAdmin.renewed now v exist)).0 in
        let own : v'.id ≡ id =
          service-id (ServiceAdmin.renewed now v exist) ∙ h.services.keyed id exist found in
        let once = insert-IsKeyed id_of_service id v' s.services own h.services in
        let twice = insert-IsKeyed id_of_service v'.id v' (insert id v' s.services) refl once in
        ground arith
  ]

  pub delete_service-IsSound : (id : Text) → IsSound (ServiceAdmin.delete_service id s).0
  unfolding ServiceAdmin.delete_service Entities.delete_service remove
  delete_service-IsSound id = ground (arith, delete-IsKeyed id_of_service id s.services)

  pub create_route-IsSound :
      (upper : ℕ → ℕ) (id : Text) (now : Time) (r : Route)
      → IsSound (RouteAdmin.create_route upper id now r s).0
  unfolding RouteAdmin.create_route Entities.create_route create
  create_route-IsSound upper id now r =
      let created = RouteAdmin.stamped id now (Routes.validate upper r).0 in
      ground (arith, insert-IsKeyed id_of_route id created s.routes)

  pub update_route-IsSound :
      (upper : ℕ → ℕ) (id : Text) (now : Time) (r : Route)
      → IsSound (RouteAdmin.update_route upper id now r s).0
  unfolding RouteAdmin.update_route Entities.update_route Entities.get_route get update
      Entities.assign_route
  update_route-IsSound upper id now r = elim (Option-cases (lookup id s.routes)) [
    | inl missing ↦ ground arith
    | inr (exist, found) ↦
        let v' = (Routes.validate upper (RouteAdmin.renewed now r exist)).0 in
        let own : v'.id ≡ id =
          route-id upper (RouteAdmin.renewed now r exist) ∙ h.routes.keyed id exist found in
        let once = insert-IsKeyed id_of_route id v' s.routes own h.routes in
        let twice = insert-IsKeyed id_of_route v'.id v' (insert id v' s.routes) refl once in
        ground arith
  ]

  pub delete_route-IsSound : (id : Text) → IsSound (RouteAdmin.delete_route id s).0
  unfolding RouteAdmin.delete_route Entities.delete_route remove
  delete_route-IsSound id = ground (arith, delete-IsKeyed id_of_route id s.routes)

  pub create_rate_limit_rule-IsSound :
      (id : Text) (now : Time) (r : RateLimitRule)
      → IsSound (RuleAdmin.create_rate_limit_rule id now r s).0
  unfolding RuleAdmin.create_rate_limit_rule Entities.create_rate_limit_rule create
  create_rate_limit_rule-IsSound id now r =
      let created = RuleAdmin.stamped id now (Rules.validate r).0 in
      ground (arith, insert-IsKeyed id_of_rate_limit_rule id created s.rate_limit_rules)

  pub update_stored_rule-IsSound :
      (id : Text) (now : Time) (r : RateLimitRule)
      → IsSound (RuleAdmin.update_stored_rule id now r s).0
  unfolding RuleAdmin.update_stored_rule Entities.update_rate_limit_rule
      Entities.get_rate_limit_rule get update Entities.assign_rate_limit_rule
  update_stored_rule-IsSound id now r = elim (Option-cases (lookup id s.rate_limit_rules)) [
    | inl missing ↦ ground arith
    | inr (exist, found) ↦
        let v' = (Rules.validate (RuleAdmin.renewed now r exist)).0 in
        let own : v'.id ≡ id =
          rule-id (RuleAdmin.renewed now r exist) ∙ h.rate_limit_rules.keyed id exist found in
        let m = s.rate_limit_rules in
        let once = insert-IsKeyed id_of_rate_limit_rule id v' m own h.rate_limit_rules in
        let twice = insert-IsKeyed id_of_rate_limit_rule v'.id v' (insert id v' m) refl once in
        ground arith
  ]

  pub delete_rate_limit_rule-IsSound :
      (id : Text) → IsSound (RuleAdmin.delete_rate_limit_rule id s).0
  unfolding RuleAdmin.delete_rate_limit_rule Entities.delete_rate_limit_rule remove
  delete_rate_limit_rule-IsSound id =
      ground (arith, delete-IsKeyed id_of_rate_limit_rule id s.rate_limit_rules)

  pub record_request-IsSound :
      (id : Text) (now : Time) (l : RequestLog) → IsSound (HealthAdmin.record_request id now l s).0
  unfolding HealthAdmin.record_request Health.create_request_log
  record_request-IsSound id now l =
      let stored = (HealthAdmin.record_request id now l s).1 in
      ground (arith, insert-IsKeyed id_of_request_log id stored s.request_logs)
