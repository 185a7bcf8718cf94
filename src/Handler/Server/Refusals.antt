-- ===== src/Handler/Server/Refusals.antt =====
-- Creations and deletions that are refused.
use adaptive_api_routing_gat.Base.{ℕ, ◌≤◌, ◌≡◌, Bool, true, false, Text, arith}
use adaptive_api_routing_gat.Base.Int.{ℤ}
use adaptive_api_routing_gat.Gateway.{Gateway}
use adaptive_api_routing_gat.Gateway.Admin.Services
use adaptive_api_routing_gat.Gateway.Admin.Routes
use adaptive_api_routing_gat.Gateway.Admin.Apps
use adaptive_api_routing_gat.Gateway.Admin.Rules
use adaptive_api_routing_gat.Handler.Api.{
  Answer, answered, panicked, respond, decoding, created, no_content,
}
use adaptive_api_routing_gat.Handler.Api.Services as ServiceApi
use adaptive_api_routing_gat.Handler.Api.Routes as RouteApi
use adaptive_api_routing_gat.Handler.Api.Apps as AppApi
use adaptive_api_routing_gat.Handler.Api.ApiKeys
use adaptive_api_routing_gat.Handler.Api.Rules as RuleApi
use adaptive_api_routing_gat.Handler.Server.Endpoints.{
  Endpoint, System, WebRequest, ApiDraws, serve_endpoint,
}

-- The endpoints that create or delete one entity.
abbrev pub creates_or_deletes : Endpoint → Bool
creates_or_deletes Endpoint.create_service = true
creates_or_deletes Endpoint.delete_service = true
creates_or_deletes Endpoint.create_route = true
creates_or_deletes Endpoint.delete_route = true
creates_or_deletes Endpoint.create_app = true
creates_or_deletes Endpoint.delete_app = true
creates_or_deletes Endpoint.create_api_key = true
creates_or_deletes Endpoint.delete_api_key = true
creates_or_deletes Endpoint.create_rate_limit_rule = true
creates_or_deletes Endpoint.delete_rate_limit_rule = true
creates_or_deletes _ = false

-- The status of an answer; the recovery answers a panic with 500.
abbrev pub status_of : Answer → ℕ
status_of (answered response) = response.reply.status
status_of panicked = 500

module _ {R : Type 0} (sys : System) (max_size : ℤ) (r : WebRequest) (d : ApiDraws) where
  -- A creation or a deletion that is answered with an error, a status of 400 or more, has changed
  -- nothing.
  pub refused-unchanged :
      (e : Endpoint) (value : Text) (g : Gateway R)
      → creates_or_deletes e ≡ true
      → 400 ≤ status_of (serve_endpoint sys max_size r d e value g).1
      → (serve_endpoint sys max_size r d e value g).0 ≡ g
  unfolding serve_endpoint respond decoding created no_content ServiceApi.create_service
      ServiceApi.delete_service RouteApi.create_route RouteApi.delete_route AppApi.create_app
      AppApi.delete_app ApiKeys.create_api_key ApiKeys.delete_api_key RuleApi.create_rate_limit_rule
      RuleApi.delete_rate_limit_rule Services.create_service Services.delete_service
      Routes.create_route Routes.delete_route Apps.create_app Apps.delete_app Apps.create_api_key
      Apps.delete_api_key Rules.create_rate_limit_rule Rules.delete_rate_limit_rule
  refused-unchanged _ value g h failed = ground arith
