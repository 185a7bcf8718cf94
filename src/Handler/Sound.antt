-- ===== src/Handler/Sound.antt =====
-- The gateway's handler keeps the state of the service sound.
use adaptive_api_routing_gat.Base.{ℕ, Option-cases, Result-cases, Bool-cases, inl, inr, Text, []}
use adaptive_api_routing_gat.Base.Float.{Float, IsFloat}
use adaptive_api_routing_gat.Model.Services.{Service}
use adaptive_api_routing_gat.Model.Routes.{Route}
use adaptive_api_routing_gat.Store.Entities.{get_service}
use adaptive_api_routing_gat.Gateway.{Gateway, allow_service, allow_request}
use adaptive_api_routing_gat.Gateway.Matching.{match_route}
use adaptive_api_routing_gat.Gateway.Admin.Health.{record_request}
use adaptive_api_routing_gat.Gateway.Admin.Sound.{record_request-IsSound}
use adaptive_api_routing_gat.Gateway.Sound.{
  IsSound, with_store-IsSound, allow_service-IsSound, record_service_result-IsSound,
  allow_request-IsSound,
}
use adaptive_api_routing_gat.Handler.Proxy.{
  Request, Moments, Upstream, record_gateway_log, proxy_request, forward, log_entry,
  limit_and_forward, caller, gateway_handler, breaks_off,
}
use adaptive_api_routing_gat.Handler.Proxy.Paths.{upstream_path}

module _ {R : Type 0} ⦃f : Float R⦄ (up : Upstream) (r : Request) (m : Moments) where
  pub record_gateway_log-IsSound :
      (route : Route) (app_id : Text) (status : ℕ) (g : Gateway R)
      → IsSound g
      → IsSound (record_gateway_log route app_id r status m g)
  unfolding record_gateway_log
  record_gateway_log-IsSound route app_id status g h =
      let entry = log_entry route app_id r status m in
      with_store-IsSound (record_request m.log_id m.at_log entry g.store).0 g
        (record_request-IsSound g.store h.store m.log_id m.at_log entry) h

  pub proxy_request-IsSound :
      (svc : Service) (route : Route) (g : Gateway R)
      → IsSound g
      → IsSound (proxy_request up r svc route m g).0
  unfolding proxy_request
  proxy_request-IsSound svc route g h = elim (Option-cases (up.base_path svc.base_url)) [
    | inl bad ↦ rw (bad, proxy_request) h
    | inr (base, parsed) ↦
        elim (Bool-cases (breaks_off (up.answer svc.base_url (upstream_path route base r.path)))) [
          | inl broken ↦ rw (parsed, broken, proxy_request) h
          | inr finished ↦
              rw (parsed, finished, proxy_request)
                (record_service_result-IsSound svc.id _ m.at_result g h)
        ]
  ]

  forward-IsSound :
      (route : Route) (app_id : Text) (g : Gateway R)
      → IsSound g
      → IsSound (forward up r route app_id m g).0
  unfolding forward
  forward-IsSound route app_id g h = elim (Result-cases (get_service route.service_id g.store)) [
    | inr (_, missing) ↦ rw (missing, forward) (record_gateway_log-IsSound route app_id 502 g h)
    | inl (svc, found) ↦
        let g' = (allow_service svc.id m.at_breaker g).0 in
        let h' = allow_service-IsSound svc.id m.at_breaker g h in
        let sent = proxy_request-IsSound svc route g' h' in
        elim (Bool-cases (allow_service svc.id m.at_breaker g).1) [
          | inl granted ↦ elim (Bool-cases (proxy_request up r svc route m g').2.aborted) [
            | inl panics ↦ rw (found, granted, panics, forward) sent
            | inr finished ↦
                rw (found, granted, finished, forward)
                  (record_gateway_log-IsSound route app_id _ _ sent)
          ]
          | inr refused ↦
              rw (found, refused, forward) (record_gateway_log-IsSound route app_id 503 g' h')
        ]
  ]

  module _ (laws : IsFloat R) where
    limit_and_forward-IsSound :
        (route : Route) (app_id : Text) (g : Gateway R)
        → IsSound g
        → IsSound (limit_and_forward up r route app_id m g).0
    unfolding limit_and_forward
    limit_and_forward-IsSound route app_id g h =
        let g' = (allow_request route m.at_limit g).0 in
        let h' = allow_request-IsSound laws route m.at_limit g h in
        elim (Bool-cases (allow_request route m.at_limit g).1) [
          | inl allowed ↦ rw (allowed, limit_and_forward) (forward-IsSound route app_id g' h')
          | inr refused ↦
              rw (refused, limit_and_forward) (record_gateway_log-IsSound route app_id 429 g' h')
        ]

    pub gateway_handler-IsSound : (g : Gateway R) → IsSound g → IsSound (gateway_handler up r m g).0
    unfolding gateway_handler
    gateway_handler-IsSound g h = elim (Option-cases (match_route r.method r.path g.store)) [
      | inl unmatched ↦ rw (unmatched, gateway_handler) h
      | inr (route, matched) ↦ elim (Result-cases (caller route r m g)) [
        | inl (app_id, known) ↦
            rw (matched, known, gateway_handler) (limit_and_forward-IsSound route app_id g h)
        | inr (_, denied) ↦
            rw (matched, denied, gateway_handler) (record_gateway_log-IsSound route [] 401 g h)
      ]
    ]
