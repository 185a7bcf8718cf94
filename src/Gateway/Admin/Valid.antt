-- ===== src/Gateway/Admin/Valid.antt =====
-- What a creation or an update that succeeds answers.
use adaptive_api_routing_gat.Base.{◌≡◌, ℕ, Text, ok, Result-cases, inl, inr, arith}
use adaptive_api_routing_gat.Base.Time.{Time}
use adaptive_api_routing_gat.Model.Services.{Service}
use adaptive_api_routing_gat.Model.Routes.{Route}
use adaptive_api_routing_gat.Model.Apps.{App}
use adaptive_api_routing_gat.Model.ApiKeys.{ApiKey}
use adaptive_api_routing_gat.Model.Rules.{RateLimitRule}
use adaptive_api_routing_gat.Model.Valid.{
  IsService, validate-IsService, IsRoute, validate-IsRoute, IsApp, validate-IsApp, IsRule,
  validate-IsRule,
}
use adaptive_api_routing_gat.Store.Memory.{MemoryStore}
use adaptive_api_routing_gat.Store.Entities
use adaptive_api_routing_gat.Store.Sound.{IsKnown}
use adaptive_api_routing_gat.Gateway.Admin.Services as ServiceAdmin
use adaptive_api_routing_gat.Gateway.Admin.Routes as RouteAdmin
use adaptive_api_routing_gat.Gateway.Admin.Apps as AppAdmin
use adaptive_api_routing_gat.Gateway.Admin.Rules as RuleAdmin
use adaptive_api_routing_gat.Gateway.Admin.Sound.Keys.{validated_key-IsKnown}

module _ (s : MemoryStore) where
  pub create_service-IsService :
      (id health_id : Text) (now : Time) (v : Service) {w : Service}
      → (ServiceAdmin.create_service id health_id now v s).1 ≡ ok w
      → IsService w
  unfolding ServiceAdmin.create_service
  create_service-IsService id health_id now v e = ground (arith, validate-IsService v)

  pub update_service-IsService :
      (id : Text) (now : Time) (v : Service) {w : Service}
      → (ServiceAdmin.update_service id now v s).1 ≡ ok w
      → IsService w
  unfolding ServiceAdmin.update_service
  update_service-IsService id now v e = elim (Result-cases (Entities.get_service id s)) [
    | inl (exist, found) ↦ ground (arith, validate-IsService (ServiceAdmin.renewed now v exist))
    | inr (_, missing) ↦ absurd (ground arith)
  ]

  pub create_route-IsRoute :
      (upper : ℕ → ℕ) (id : Text) (now : Time) (r : Route) {w : Route}
      → (RouteAdmin.create_route upper id now r s).1 ≡ ok w
      → IsRoute w
  unfolding RouteAdmin.create_route
  create_route-IsRoute upper id now r e = ground (arith, validate-IsRoute upper r)

  pub update_route-IsRoute :
      (upper : ℕ → ℕ) (id : Text) (now : Time) (r : Route) {w : Route}
      → (RouteAdmin.update_route upper id now r s).1 ≡ ok w
      → IsRoute w
  unfolding RouteAdmin.update_route
  update_route-IsRoute upper id now r e = elim (Result-cases (Entities.get_route id s)) [
    | inl (exist, found) ↦ ground (arith, validate-IsRoute upper (RouteAdmin.renewed now r exist))
    | inr (_, missing) ↦ absurd (ground arith)
  ]

  pub create_app-IsApp :
      (id : Text) (now : Time) (a : App) {w : App}
      → (AppAdmin.create_app id now a s).1 ≡ ok w
      → IsApp w
  unfolding AppAdmin.create_app
  create_app-IsApp id now a e = ground (arith, validate-IsApp a)

  pub update_app-IsApp :
      (id : Text) (now : Time) (a : App) {w : App}
      → (AppAdmin.update_app id now a s).1 ≡ ok w
      → IsApp w
  unfolding AppAdmin.update_app
  update_app-IsApp id now a e = elim (Result-cases (Entities.get_app id s)) [
    | inl (exist, found) ↦ ground (arith, validate-IsApp (AppAdmin.renewed now a exist))
    | inr (_, missing) ↦ absurd (ground arith)
  ]

  pub create_rate_limit_rule-IsRule :
      (id : Text) (now : Time) (r : RateLimitRule) {w : RateLimitRule}
      → (RuleAdmin.create_rate_limit_rule id now r s).1 ≡ ok w
      → IsRule w
  unfolding RuleAdmin.create_rate_limit_rule
  create_rate_limit_rule-IsRule id now r e = ground (arith, validate-IsRule r)

  pub update_stored_rule-IsRule :
      (id : Text) (now : Time) (r : RateLimitRule) {w : RateLimitRule}
      → (RuleAdmin.update_stored_rule id now r s).1 ≡ ok w
      → IsRule w
  unfolding RuleAdmin.update_stored_rule
  update_stored_rule-IsRule id now r e = elim (Result-cases (Entities.get_rate_limit_rule id s)) [
    | inl (exist, found) ↦ ground (arith, validate-IsRule (RuleAdmin.renewed now r exist))
    | inr (_, missing) ↦ absurd (ground arith)
  ]

  pub create_api_key-IsKnown :
      (id hex app_id secret : Text) (expires created validated : Time) {w : ApiKey}
      → (AppAdmin.create_api_key id hex app_id secret expires created validated s).1 ≡ ok w
      → IsKnown w
  unfolding AppAdmin.create_api_key
  create_api_key-IsKnown id hex app_id secret expires created validated e =
      let k = AppAdmin.new_key id hex app_id secret created expires in
      ground (arith, validated_key-IsKnown validated k)

  pub update_api_key_status-IsKnown :
      (id status : Text) {w : ApiKey}
      → (AppAdmin.update_api_key_status id status s).1 ≡ ok w
      → IsKnown w
  unfolding AppAdmin.update_api_key_status
  update_api_key_status-IsKnown id status e = ground arith
