-- ===== src/Handler/Server/Deletions.antt =====
-- What the management API answers to a read after a deletion.
use adaptive_api_routing_gat.Base.{
  ◌≡◌, refl, Bool, true, false, Text, Result-cases, err_not_found, inl, inr, arith,
}
use adaptive_api_routing_gat.Base.Int.{ℤ}
use adaptive_api_routing_gat.Store.Entities
use adaptive_api_routing_gat.Store.Entities.ReadBack
use adaptive_api_routing_gat.Gateway.{Gateway}
use adaptive_api_routing_gat.Gateway.Admin.Services
use adaptive_api_routing_gat.Gateway.Admin.Routes
use adaptive_api_routing_gat.Gateway.Admin.Apps
use adaptive_api_routing_gat.Gateway.Admin.Rules
use adaptive_api_routing_gat.Handler.Replies.{write_service_error}
use adaptive_api_routing_gat.Handler.Api.{
  plain, respond, decoding, list_answer, created, ok_answer, no_content,
}
use adaptive_api_routing_gat.Handler.Api.Services as ServiceApi
use adaptive_api_routing_gat.Handler.Api.Routes as RouteApi
use adaptive_api_routing_gat.Handler.Api.Apps as AppApi
use adaptive_api_routing_gat.Handler.Api.ApiKeys
use adaptive_api_routing_gat.Handler.Api.Rules as RuleApi
use adaptive_api_routing_gat.Handler.Api.Reports
use adaptive_api_routing_gat.Handler.Server.Endpoints.{
  Endpoint, System, WebRequest, ApiDraws, serve_endpoint,
}
use adaptive_api_routing_gat.Handler.Server.ReadBack.{reader}

-- The endpoints that delete an entity.
abbrev deletes : Endpoint → Bool
deletes Endpoint.delete_service = true
deletes Endpoint.delete_route = true
deletes Endpoint.delete_app = true
deletes Endpoint.delete_api_key = true
deletes Endpoint.delete_rate_limit_rule = true
deletes _ = false

module _ {R : Type 0} (sys : System) (max_size : ℤ) (r : WebRequest) (d : ApiDraws) where
  not_deleted :
      (e : Endpoint) (value : Text) (g : Gateway R)
      → deletes e ≡ false
      → (serve_endpoint sys max_size r d e value g).1 ≡ no_content
      → ⊥
  unfolding serve_endpoint decoding ServiceApi.get_service RouteApi.get_route AppApi.get_app
      ApiKeys.get_api_key RuleApi.get_rate_limit_rule respond no_content write_service_error
      list_answer ServiceApi.list_services ServiceApi.update_service ServiceApi.delete_service
      RouteApi.list_routes RouteApi.update_route RouteApi.delete_route AppApi.list_apps
      AppApi.update_app AppApi.delete_app ApiKeys.list_api_keys ApiKeys.update_api_key_status
      ApiKeys.delete_api_key RuleApi.list_rate_limit_rules RuleApi.update_rate_limit_rule
      RuleApi.delete_rate_limit_rule Reports.list_request_logs Reports.get_request_log
      Reports.list_health_checks Reports.get_health_check Reports.probe_service Reports.get_stats
      Reports.export_config Reports.import_services Reports.import_rate_limit_rules created
      ok_answer ServiceApi.create_service RouteApi.create_route AppApi.create_app
      ApiKeys.create_api_key RuleApi.create_rate_limit_rule
  not_deleted _ value g other h = ground arith

  -- After a deletion that is answered with 204, a read of the identifier is answered with 404.
  pub deleted-missing :
      (e : Endpoint) (value : Text) (g : Gateway R)
      → (serve_endpoint sys max_size r d e value g).1 ≡ no_content
      → (serve_endpoint sys max_size r d
          (reader e)
          value
          (serve_endpoint sys max_size r d e value g).0).1
        ≡ plain (write_service_error err_not_found)
  unfolding serve_endpoint respond no_content write_service_error ServiceApi.delete_service
      ServiceApi.get_service Services.delete_service Services.get_service RouteApi.delete_route
      RouteApi.get_route Routes.delete_route Routes.get_route AppApi.delete_app AppApi.get_app
      Apps.delete_app Apps.get_app ApiKeys.delete_api_key ApiKeys.get_api_key Apps.delete_api_key
      Apps.get_api_key RuleApi.delete_rate_limit_rule RuleApi.get_rate_limit_rule
      Rules.delete_rate_limit_rule Rules.get_rate_limit_rule
  deleted-missing Endpoint.delete_service value g h =
      elim (Result-cases (Entities.delete_service value g.store)) [
        | inl (s', q) ↦ ground (arith, ReadBack.get_service-delete_service g.store value q)
        | inr (x, q) ↦ absurd (ground arith)
      ]
  deleted-missing Endpoint.delete_route value g h =
      elim (Result-cases (Entities.delete_route value g.store)) [
        | inl (s', q) ↦ ground (arith, ReadBack.get_route-delete_route g.store value q)
        | inr (x, q) ↦ absurd (ground arith)
      ]
  deleted-missing Endpoint.delete_app value g h =
      elim (Result-cases (Entities.delete_app value g.store)) [
        | inl (s', q) ↦ ground (arith, ReadBack.get_app-delete_app g.store value q)
        | inr (x, q) ↦ absurd (ground arith)
      ]
  deleted-missing Endpoint.delete_api_key value g h =
      elim (Result-cases (Entities.delete_api_key value g.store)) [
        | inl (s', q) ↦ ground (arith, ReadBack.get_api_key-delete_api_key g.store value q)
        | inr (x, q) ↦ absurd (ground arith)
      ]
  deleted-missing Endpoint.delete_rate_limit_rule value g h =
      elim (Result-cases (Entities.delete_rate_limit_rule value g.store)) [
        | inl (s', q) ↦
            ground (arith, ReadBack.get_rate_limit_rule-delete_rate_limit_rule g.store value q)
        | inr (x, q) ↦ absurd (ground arith)
      ]
  deleted-missing e value g h = absurd (not_deleted e value g refl h)
