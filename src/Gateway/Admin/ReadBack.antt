-- ===== src/Gateway/Admin/ReadBack.antt =====
-- What a get of the service answers after a creation.
use adaptive_api_routing_gat.Base.{ℕ, ◌≡◌, Text, Result-cases, ok, inl, inr, arith}
use adaptive_api_routing_gat.Base.Time.{Time}
use adaptive_api_routing_gat.Model.Services.{Service, validate as valid_service}
use adaptive_api_routing_gat.Model.Routes.{Route, validate as valid_route}
use adaptive_api_routing_gat.Model.Apps.{App, validate as valid_app}
use adaptive_api_routing_gat.Model.ApiKeys.{ApiKey, validate as valid_apikey}
use adaptive_api_routing_gat.Model.Rules.{RateLimitRule, validate as valid_rule}
use adaptive_api_routing_gat.Store.Memory.{MemoryStore}
use adaptive_api_routing_gat.Store.Entities
use adaptive_api_routing_gat.Store.Entities.ReadBack
use adaptive_api_routing_gat.Store.Health.{create_health_check}
use adaptive_api_routing_gat.Gateway.Admin.Services
use adaptive_api_routing_gat.Gateway.Admin.Routes
use adaptive_api_routing_gat.Gateway.Admin.Apps
use adaptive_api_routing_gat.Gateway.Admin.Rules

-- The operations of the service: what was created is what a get of its identifier answers.
module _ (s : MemoryStore) (now : Time) where
  pub get_service-create_service :
      (id health_id : Text) (v : Service) {stored : Service}
      → (Services.create_service id health_id now v s).1 ≡ ok stored
      → (Services.get_service stored.id (Services.create_service id health_id now v s).0).1
        ≡ ok stored
  unfolding Services.create_service Services.get_service Entities.get_service create_health_check
  get_service-create_service id health_id v e =
      let checked = Services.stamped id now (valid_service v).0 in
      elim (Result-cases (Entities.create_service checked s)) [
        | inl (s', q) ↦ ground (arith, ReadBack.get_service-create_service s checked q)
        | inr (x, q) ↦ absurd (ground arith)
      ]

  pub get_route-create_route :
      (upper : ℕ → ℕ) (id : Text) (v : Route) {stored : Route}
      → (Routes.create_route upper id now v s).1 ≡ ok stored
      → (Routes.get_route stored.id (Routes.create_route upper id now v s).0).1 ≡ ok stored
  unfolding Routes.create_route Routes.get_route
  get_route-create_route upper id v e =
      let checked = Routes.stamped id now (valid_route upper v).0 in
      elim (Result-cases (Entities.create_route checked s)) [
        | inl (s', q) ↦ ground (arith, ReadBack.get_route-create_route s checked q)
        | inr (x, q) ↦ absurd (ground arith)
      ]

  pub get_app-create_app :
      (id : Text) (v : App) {stored : App}
      → (Apps.create_app id now v s).1 ≡ ok stored
      → (Apps.get_app stored.id (Apps.create_app id now v s).0).1 ≡ ok stored
  unfolding Apps.create_app Apps.get_app
  get_app-create_app id v e =
      let checked = Apps.stamped id now (valid_app v).0 in
      elim (Result-cases (Entities.create_app checked s)) [
        | inl (s', q) ↦ ground (arith, ReadBack.get_app-create_app s checked q)
        | inr (x, q) ↦ absurd (ground arith)
      ]

  pub get_api_key-create_api_key :
      (id hex app_id secret : Text) (expires validated : Time) {stored : ApiKey}
      → (Apps.create_api_key id hex app_id secret expires now validated s).1 ≡ ok stored
      → (Apps.get_api_key stored.id
          (Apps.create_api_key id hex app_id secret expires now validated s).0).1
        ≡ ok stored
  unfolding Apps.create_api_key Apps.get_api_key
  get_api_key-create_api_key id hex app_id secret expires validated e =
      let checked = (valid_apikey validated (Apps.new_key id hex app_id secret now expires)).0 in
      elim (Result-cases (Entities.create_api_key checked s)) [
        | inl (s', q) ↦ ground (arith, ReadBack.get_api_key-create_api_key s checked q)
        | inr (x, q) ↦ absurd (ground arith)
      ]

  pub get_rate_limit_rule-create_rate_limit_rule :
      (id : Text) (v : RateLimitRule) {stored : RateLimitRule}
      → (Rules.create_rate_limit_rule id now v s).1 ≡ ok stored
      → (Rules.get_rate_limit_rule stored.id (Rules.create_rate_limit_rule id now v s).0).1
        ≡ ok stored
  unfolding Rules.create_rate_limit_rule Rules.get_rate_limit_rule
  get_rate_limit_rule-create_rate_limit_rule id v e =
      let checked = Rules.stamped id now (valid_rule v).0 in
      elim (Result-cases (Entities.create_rate_limit_rule checked s)) [
        | inl (s', q) ↦
            ground (arith, ReadBack.get_rate_limit_rule-create_rate_limit_rule s checked q)
        | inr (x, q) ↦ absurd (ground arith)
      ]
