-- ===== src/Handler/Server/ReadBack.antt =====
-- What the management API answers to a read after a creation.
use adaptive_api_routing_gat.Base.{
  ◌≡◌, refl, Bool, true, false, Text, Option-cases, Result-cases, ok, inl, inr, ◌⊎◌, arith,
}
use adaptive_api_routing_gat.Base.Int.{ℤ}
use adaptive_api_routing_gat.Gateway.{Gateway}
use adaptive_api_routing_gat.Gateway.Admin.{Action}
use adaptive_api_routing_gat.Gateway.Admin.Services
use adaptive_api_routing_gat.Gateway.Admin.Routes
use adaptive_api_routing_gat.Gateway.Admin.Apps
use adaptive_api_routing_gat.Gateway.Admin.Rules
use adaptive_api_routing_gat.Handler.Replies.{write_service_error}
use adaptive_api_routing_gat.Handler.Api.{
  Item, service_item, route_item, app_item, key_item, rule_item, log_item, health_item, one,
  respond, decoding, list_answer, Decoded, malformed, decoded, created, ok_answer, no_content,
}
use adaptive_api_routing_gat.Handler.Api.Services as ServiceApi
use adaptive_api_routing_gat.Handler.Api.Routes as RouteApi
use adaptive_api_routing_gat.Handler.Api.Apps as AppApi
use adaptive_api_routing_gat.Handler.Api.ApiKeys
use adaptive_api_routing_gat.Handler.Api.Rules as RuleApi
use adaptive_api_routing_gat.Handler.Api.Reports
use adaptive_api_routing_gat.Handler.Server.Endpoints.{
  Endpoint, System, WebRequest, ApiDraws, serve_endpoint,
}
use adaptive_api_routing_gat.Gateway.Admin.ReadBack.{
  get_service-create_service, get_route-create_route, get_app-create_app,
  get_api_key-create_api_key, get_rate_limit_rule-create_rate_limit_rule,
}

-- The identifier of an item.
abbrev pub item_id : Item → Text
item_id (service_item v) = v.id
item_id (route_item v) = v.id
item_id (app_item v) = v.id
item_id (key_item v) = v.id
item_id (rule_item v) = v.id
item_id (log_item v) = v.id
item_id (health_item v) = v.id

-- The endpoint that reads what an endpoint creates or deletes.
abbrev pub reader : Endpoint → Endpoint
reader Endpoint.create_service = Endpoint.get_service
reader Endpoint.delete_service = Endpoint.get_service
reader Endpoint.create_route = Endpoint.get_route
reader Endpoint.delete_route = Endpoint.get_route
reader Endpoint.create_app = Endpoint.get_app
reader Endpoint.delete_app = Endpoint.get_app
reader Endpoint.create_api_key = Endpoint.get_api_key
reader Endpoint.delete_api_key = Endpoint.get_api_key
reader Endpoint.create_rate_limit_rule = Endpoint.get_rate_limit_rule
reader Endpoint.delete_rate_limit_rule = Endpoint.get_rate_limit_rule
reader e = e

module _ {R : Type 0} where
  -- An answer of 201 carries what the operation made, and a read of it carries the same.
  respond_read :
      {A : Type 0} (to_item : A → Item) (act : Action A) (id_of : A → Text)
      (fetch : Text → Action A) (g : Gateway R) (i : Item)
      → ((a : A) → item_id (to_item a) ≡ id_of a)
      → ((a : A) → (act g.store).1 ≡ ok a → (fetch (id_of a) (act g.store).0).1 ≡ ok a)
      → (respond (λ a. created (one (to_item a))) act g).1 ≡ created (one i)
      → (respond
          (λ a. ok_answer (one (to_item a)))
          (fetch (item_id i))
          (respond (λ a. created (one (to_item a))) act g).0).1
        ≡ ok_answer (one i)
  unfolding respond created ok_answer
  respond_read to_item act id_of fetch g i same_id found e = elim (Result-cases (act g.store).1) [
    | inl (a, q) ↦ let item : i ≡ to_item a = ground arith in rw (item, same_id a, found a q)
    | inr (x, q) ↦ absurd (ground arith)
  ]

Decoded-cases :
    {A : Type 0} (body : Decoded A)
    → ((t : Text) × (body ≡ malformed t)) ⊎ ((a : A) × (body ≡ decoded a))
Decoded-cases (malformed t) = inl (t, refl)
Decoded-cases (decoded a) = inr (a, refl)

-- The endpoints that create an entity.
abbrev creates : Endpoint → Bool
creates Endpoint.create_service = true
creates Endpoint.create_route = true
creates Endpoint.create_app = true
creates Endpoint.create_api_key = true
creates Endpoint.create_rate_limit_rule = true
creates _ = false

module _ {R : Type 0} (sys : System) (max_size : ℤ) (r : WebRequest) (d : ApiDraws) where
  not_created :
      (e : Endpoint) (value : Text) (g : Gateway R) (i : Item)
      → creates e ≡ false
      → (serve_endpoint sys max_size r d e value g).1 ≡ created (one i)
      → ⊥
  unfolding serve_endpoint decoding ServiceApi.get_service RouteApi.get_route AppApi.get_app
      ApiKeys.get_api_key RuleApi.get_rate_limit_rule respond no_content write_service_error
      list_answer ServiceApi.list_services ServiceApi.update_service ServiceApi.delete_service
      RouteApi.list_routes RouteApi.update_route RouteApi.delete_route AppApi.list_apps
      AppApi.update_app AppApi.delete_app ApiKeys.list_api_keys ApiKeys.update_api_key_status
      ApiKeys.delete_api_key RuleApi.list_rate_limit_rules RuleApi.update_rate_limit_rule
      RuleApi.delete_rate_limit_rule Reports.list_request_logs Reports.get_request_log
      Reports.list_health_checks Reports.get_health_check Reports.probe_service Reports.get_stats
      Reports.export_config Reports.import_services Reports.import_rate_limit_rules created
      ok_answer
  not_created _ value g i other h = ground arith

  -- What a creation is answered with, if that is 201, is what a read of its identifier is answered
  -- with afterwards.
  pub created-found :
      (e : Endpoint) (value : Text) (g : Gateway R) (i : Item)
      → (serve_endpoint sys max_size r d e value g).1 ≡ created (one i)
      → (serve_endpoint sys max_size r d
          (reader e)
          (item_id i)
          (serve_endpoint sys max_size r d e value g).0).1
        ≡ ok_answer (one i)
  unfolding serve_endpoint decoding created ok_answer ServiceApi.create_service
      ServiceApi.get_service RouteApi.create_route RouteApi.get_route AppApi.create_app
      AppApi.get_app RuleApi.create_rate_limit_rule RuleApi.get_rate_limit_rule
      ApiKeys.create_api_key ApiKeys.get_api_key
  created-found Endpoint.create_service value g i h =
      elim (Decoded-cases (sys.decode_service r.body)) [
        | inl (t, q) ↦ absurd (ground arith)
        | inr (req, q) ↦
            let act = Services.create_service d.id d.second_id d.now (ServiceApi.requested req) in
            ground (
              arith,
              respond_read service_item act (λ v. v.id) Services.get_service g i (λ v. refl)
                  (λ v.
                    get_service-create_service g.store d.now d.id d.second_id
                      (ServiceApi.requested req)),
            )
      ]
  created-found Endpoint.create_route value g i h = elim (Decoded-cases (sys.decode_route r.body)) [
    | inl (t, q) ↦ absurd (ground arith)
    | inr (req, q) ↦
        let act = Routes.create_route sys.upper d.id d.now (RouteApi.requested req) in
        ground (
          arith,
          respond_read route_item act (λ v. v.id) Routes.get_route g i (λ v. refl)
              (λ v. get_route-create_route g.store d.now sys.upper d.id (RouteApi.requested req)),
        )
  ]
  created-found Endpoint.create_app value g i h = elim (Decoded-cases (sys.decode_app r.body)) [
    | inl (t, q) ↦ absurd (ground arith)
    | inr (req, q) ↦
        let act = Apps.create_app d.id d.now (AppApi.requested req) in
        ground (
          arith,
          respond_read app_item act (λ v. v.id) Apps.get_app g i (λ v. refl)
              (λ v. get_app-create_app g.store d.now d.id (AppApi.requested req)),
        )
  ]
  created-found Endpoint.create_rate_limit_rule value g i h =
      elim (Decoded-cases (sys.decode_rule r.body)) [
        | inl (t, q) ↦ absurd (ground arith)
        | inr (req, q) ↦
            let act = Rules.create_rate_limit_rule d.id d.now (RuleApi.requested req) in
            ground (
              arith,
              respond_read rule_item act (λ v. v.id) Rules.get_rate_limit_rule g i (λ v. refl)
                  (λ v.
                    get_rate_limit_rule-create_rate_limit_rule g.store d.now d.id
                      (RuleApi.requested req)),
            )
      ]
  created-found Endpoint.create_api_key value g i h =
      elim (Decoded-cases (sys.decode_api_key r.body)) [
        | inl (t, q) ↦ absurd (ground arith)
        | inr (req, q) ↦ elim (Option-cases (ApiKeys.expiry sys.parse_time req.expires_at)) [
          | inl bad ↦ absurd (ground arith)
          | inr (expires, parsed) ↦
              let act =
                Apps.create_api_key d.id d.second_id req.app_id req.secret expires d.now
                  d.validated_at in
              ground (
                arith,
                respond_read key_item act (λ v. v.id) Apps.get_api_key g i (λ v. refl)
                    (λ v.
                      get_api_key-create_api_key g.store d.now d.id d.second_id req.app_id
                        req.secret expires d.validated_at),
              )
        ]
      ]
  created-found e value g i h = absurd (not_created e value g i refl h)
