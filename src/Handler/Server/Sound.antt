-- ===== src/Handler/Server/Sound.antt =====
-- Every request to the server keeps the state of the service sound.
use adaptive_api_routing_gat.Base.{inl, inr, Text, Option, Option-cases, arith}
use adaptive_api_routing_gat.Base.Int.{ℤ}
use adaptive_api_routing_gat.Base.Time.{Time}
use adaptive_api_routing_gat.Base.Float.{Float, IsFloat}
use adaptive_api_routing_gat.Config.{Config}
use adaptive_api_routing_gat.Gateway.{Gateway, reset_buckets}
use adaptive_api_routing_gat.Gateway.Sound.{IsSound, with_store-IsSound, without_buckets-IsSound}
use adaptive_api_routing_gat.Gateway.Admin.Rules
use adaptive_api_routing_gat.Gateway.Admin.Services
use adaptive_api_routing_gat.Gateway.Admin.Routes
use adaptive_api_routing_gat.Gateway.Admin.Apps
use adaptive_api_routing_gat.Gateway.Admin.Health
use adaptive_api_routing_gat.Gateway.Admin.Sound.{
  create_service-IsSound, update_service-IsSound, delete_service-IsSound, create_route-IsSound,
  update_route-IsSound, delete_route-IsSound, create_rate_limit_rule-IsSound,
  update_stored_rule-IsSound, delete_rate_limit_rule-IsSound,
}
use adaptive_api_routing_gat.Gateway.Admin.Sound.Keys.{
  create_app-IsSound, update_app-IsSound, delete_app-IsSound, create_api_key-IsSound,
  update_api_key_status-IsSound, delete_api_key-IsSound,
}
use adaptive_api_routing_gat.Gateway.Admin.Sound.Probes.{
  probe_service-IsSound, import_services-IsSound, import_rate_limit_rules-IsSound,
}
use adaptive_api_routing_gat.Model.Rules.{RateLimitRule}
use adaptive_api_routing_gat.Handler.Api.{Decoded, malformed, decoded, respond, decoding}
use adaptive_api_routing_gat.Handler.Api.Services as ServiceApi
use adaptive_api_routing_gat.Handler.Api.Routes as RouteApi
use adaptive_api_routing_gat.Handler.Api.Apps as AppApi
use adaptive_api_routing_gat.Handler.Api.ApiKeys
use adaptive_api_routing_gat.Handler.Api.ApiKeys.{expiry}
use adaptive_api_routing_gat.Handler.Api.Rules as RuleApi
use adaptive_api_routing_gat.Handler.Api.Reports
use adaptive_api_routing_gat.Handler.Server.Endpoints.{
  Endpoint, System, WebRequest, ApiDraws, serve_endpoint, Mux, admin_routes,
}
use adaptive_api_routing_gat.Handler.Proxy.{Moments, Upstream}
use adaptive_api_routing_gat.Handler.Middleware.{admin_auth}
use adaptive_api_routing_gat.Handler.Sound.{gateway_handler-IsSound}
use adaptive_api_routing_gat.Handler.Server.{
  admin, gateway, front_routes, Server, Printed, admin_handler, dispatch, serve, max_page_size,
}
use adaptive_api_routing_gat.Handler.Server.Access.{Picked-cases, serve-dispatch}

module _ {R : Type 0} ⦃f : Float R⦄ where
  update_rate_limit_rule-IsSound :
      (id : Text) (now : Time) (r : RateLimitRule) (g : Gateway R)
      → IsSound g
      → IsSound (Rules.update_rate_limit_rule id now r g).0
  unfolding Rules.update_rate_limit_rule reset_buckets
  update_rate_limit_rule-IsSound id now r g h =
      let s' = (Rules.update_stored_rule id now r g.store).0 in
      let stored =
        with_store-IsSound s' g (update_stored_rule-IsSound g.store h.store id now r) h in
      let emptied = without_buckets-IsSound (record g { store = s' }) stored in ground arith

  serve_new_key-IsSound :
      (parse_time : Text → Option Time) (body : Decoded ApiKeys.ApiKeyRequest)
      (draws : ApiKeys.KeyDraws) (g : Gateway R)
      → IsSound g
      → IsSound (ApiKeys.create_api_key parse_time body draws g).0
  unfolding ApiKeys.create_api_key decoding respond
  serve_new_key-IsSound parse_time (malformed text) draws g h = h
  serve_new_key-IsSound parse_time (decoded req) draws g h =
      elim (Option-cases (expiry parse_time req.expires_at)) [
        | inl bad ↦ ground arith
        | inr (expires, parsed) ↦
            let made =
              create_api_key-IsSound g.store h.store draws.id draws.hex req.app_id req.secret
                expires draws.created_at draws.validated_at in
            let kept = with_store-IsSound _ g made h in ground arith
      ]

  module _ (sys : System) (max_size : ℤ) (r : WebRequest) (d : ApiDraws) where
    serve_endpoint-IsSound :
        (e : Endpoint) (value : Text) (g : Gateway R)
        → IsSound g
        → IsSound (serve_endpoint sys max_size r d e value g).0
    unfolding serve_endpoint ServiceApi.create_service ServiceApi.update_service
        ServiceApi.delete_service RouteApi.create_route RouteApi.update_route RouteApi.delete_route
        AppApi.create_app AppApi.update_app AppApi.delete_app ApiKeys.create_api_key
        ApiKeys.update_api_key_status ApiKeys.delete_api_key RuleApi.create_rate_limit_rule
        RuleApi.update_rate_limit_rule RuleApi.delete_rate_limit_rule Reports.probe_service
        Reports.import_services Reports.import_rate_limit_rules ServiceApi.list_services
        ServiceApi.get_service RouteApi.list_routes RouteApi.get_route AppApi.list_apps
        AppApi.get_app ApiKeys.list_api_keys ApiKeys.get_api_key RuleApi.list_rate_limit_rules
        RuleApi.get_rate_limit_rule Reports.list_request_logs Reports.get_request_log
        Reports.list_health_checks Reports.get_health_check Reports.get_stats Reports.export_config
        respond decoding Services.get_service Routes.get_route Apps.get_app Apps.get_api_key
        Rules.get_rate_limit_rule Health.get_request_log Health.get_health_check
    serve_endpoint-IsSound Endpoint.create_service value g h =
        elim (sys.decode_service r.body)
          as (λ b. IsSound (ServiceApi.create_service b d.id d.second_id d.now g).0) [
            | malformed _ ↦ h
            | decoded req ↦
                with_store-IsSound _ g (create_service-IsSound g.store h.store _ _ _ _) h
          ]
    serve_endpoint-IsSound Endpoint.update_service value g h =
        elim (sys.decode_service r.body)
          as (λ b. IsSound (ServiceApi.update_service b value d.now g).0) [
            | malformed _ ↦ h
            | decoded req ↦ with_store-IsSound _ g (update_service-IsSound g.store h.store _ _ _) h
          ]
    serve_endpoint-IsSound Endpoint.delete_service value g h =
        with_store-IsSound _ g (delete_service-IsSound g.store h.store _) h
    serve_endpoint-IsSound Endpoint.create_route value g h =
        elim (sys.decode_route r.body)
          as (λ b. IsSound (RouteApi.create_route sys.upper b d.id d.now g).0) [
            | malformed _ ↦ h
            | decoded req ↦ with_store-IsSound _ g (create_route-IsSound g.store h.store _ _ _ _) h
          ]
    serve_endpoint-IsSound Endpoint.update_route value g h =
        elim (sys.decode_route r.body)
          as (λ b. IsSound (RouteApi.update_route sys.upper b value d.now g).0) [
            | malformed _ ↦ h
            | decoded req ↦ with_store-IsSound _ g (update_route-IsSound g.store h.store _ _ _ _) h
          ]
    serve_endpoint-IsSound Endpoint.delete_route value g h =
        with_store-IsSound _ g (delete_route-IsSound g.store h.store _) h
    serve_endpoint-IsSound Endpoint.create_app value g h =
        elim (sys.decode_app r.body) as (λ b. IsSound (AppApi.create_app b d.id d.now g).0) [
          | malformed _ ↦ h
          | decoded req ↦ with_store-IsSound _ g (create_app-IsSound g.store h.store _ _ _) h
        ]
    serve_endpoint-IsSound Endpoint.update_app value g h =
        elim (sys.decode_app r.body) as (λ b. IsSound (AppApi.update_app b value d.now g).0) [
          | malformed _ ↦ h
          | decoded req ↦ with_store-IsSound _ g (update_app-IsSound g.store h.store _ _ _) h
        ]
    serve_endpoint-IsSound Endpoint.delete_app value g h =
        with_store-IsSound _ g (delete_app-IsSound g.store h.store _) h
    serve_endpoint-IsSound Endpoint.create_api_key value g h =
        serve_new_key-IsSound sys.parse_time (sys.decode_api_key r.body) _ g h
    serve_endpoint-IsSound Endpoint.update_api_key_status value g h =
        elim (sys.decode_status r.body)
          as (λ b. IsSound (ApiKeys.update_api_key_status b value g).0) [
            | malformed _ ↦ h
            | decoded req ↦
                with_store-IsSound _ g (update_api_key_status-IsSound g.store h.store _ _) h
          ]
    serve_endpoint-IsSound Endpoint.delete_api_key value g h =
        with_store-IsSound _ g (delete_api_key-IsSound g.store h.store _) h
    serve_endpoint-IsSound Endpoint.create_rate_limit_rule value g h =
        elim (sys.decode_rule r.body)
          as (λ b. IsSound (RuleApi.create_rate_limit_rule b d.id d.now g).0) [
            | malformed _ ↦ h
            | decoded req ↦
                with_store-IsSound _ g (create_rate_limit_rule-IsSound g.store h.store _ _ _) h
          ]
    serve_endpoint-IsSound Endpoint.update_rate_limit_rule value g h =
        elim (sys.decode_rule r.body)
          as (λ b. IsSound (RuleApi.update_rate_limit_rule b value d.now g).0) [
            | malformed _ ↦ h
            | decoded req ↦ update_rate_limit_rule-IsSound value d.now (RuleApi.requested req) g h
          ]
    serve_endpoint-IsSound Endpoint.delete_rate_limit_rule value g h =
        with_store-IsSound _ g (delete_rate_limit_rule-IsSound g.store h.store _) h
    serve_endpoint-IsSound Endpoint.probe_service value g h =
        with_store-IsSound _ g (probe_service-IsSound sys.network _ _ _ g.store h.store) h
    serve_endpoint-IsSound Endpoint.import_services value g h =
        elim (sys.decode_services r.body)
          as (λ b. IsSound (Reports.import_services b d.imports g).0) [
            | malformed _ ↦ h
            | decoded items ↦ with_store-IsSound _ g (import_services-IsSound _ g.store h.store) h
          ]
    serve_endpoint-IsSound Endpoint.import_rate_limit_rules value g h =
        elim (sys.decode_rules r.body)
          as (λ b. IsSound (Reports.import_rate_limit_rules b d.imports g).0) [
            | malformed _ ↦ h
            | decoded items ↦
                with_store-IsSound _ g (import_rate_limit_rules-IsSound _ g.store h.store) h
          ]
    serve_endpoint-IsSound _ value g h = h

module _ {R : Type 0} ⦃f : Float R⦄ (laws : IsFloat R) (mux : Mux) (sys : System) (up : Upstream)
    (cfg : Config) (r : WebRequest) (d : ApiDraws) (m : Moments) where
  admin_handler-IsSound :
      (g : Gateway R) → IsSound g → IsSound (admin_handler mux sys up cfg r d g).0
  unfolding admin_handler
  admin_handler-IsSound g h =
      elim (Picked-cases (mux.pick admin_routes r.request.method r.request.escaped_path)) [
        | inl (reply, own) ↦ rw (own, admin_handler) h
        | inr (e, value, picked) ↦
            rw (picked, admin_handler)
              (serve_endpoint-IsSound sys (max_page_size cfg) r d e value g h)
      ]

  dispatch-IsSound : (g : Gateway R) → IsSound g → IsSound (dispatch mux sys up cfg r d m g).0
  unfolding dispatch admin_auth
  dispatch-IsSound g h =
      elim (Picked-cases (mux.pick front_routes r.request.method r.request.escaped_path)) [
        | inl (reply, own) ↦ rw (own, dispatch) h
        | inr (gateway, _, picked) ↦
            rw (picked, dispatch) (gateway_handler-IsSound up r.request m laws g h)
        | inr (admin, _, picked) ↦
            let kept = admin_handler-IsSound g h in rw (picked, dispatch) (ground arith)
      ]

  -- A request keeps the state of the service sound.
  pub serve-IsSound :
      (p : Printed) (s : Server R)
      → IsSound s.service
      → IsSound (serve mux sys up cfg r d m p s).0.service
  serve-IsSound p s h =
      rw ((serve-dispatch mux sys up cfg r d m p s).0) (dispatch-IsSound s.service h)
