-- ===== src/Handler/Phases.antt =====
-- internal/handler/gateway_handler.go once more, cut where a request gives way to others: each phase
-- ends with one call of the service, which is one step here. The goroutines of several requests
-- share the state of the service and take their turns in any order. No management request runs
-- among them, so that the route and the service of a request stay what they were found to be.
pub mod Schedules
pub mod Probe
use adaptive_api_routing_gat.Base.{
  ℕ, zero, suc, Option, none, some, true, false, Text, codes, List, [], ◌∷◌, ltb, ok, err,
  if◌then◌else◌,
}
use adaptive_api_routing_gat.Base.Float.{Float}
use adaptive_api_routing_gat.Model.Services.{Service}
use adaptive_api_routing_gat.Model.Routes.{Route}
use adaptive_api_routing_gat.Store.Entities.{get_service}
use adaptive_api_routing_gat.Gateway.{Gateway, allow_request, allow_service, record_service_result}
use adaptive_api_routing_gat.Gateway.Matching.{match_route}
use adaptive_api_routing_gat.Handler.Replies.{
  Reply, error_reply, unauthorized, not_found, internal_error, error_text,
}
use adaptive_api_routing_gat.Handler.Proxy.{
  Request, Moments, Upstream, Outcome, refused, reply_of, breaks_off, caller, record_gateway_log,
}
use adaptive_api_routing_gat.Handler.Proxy.Paths.{upstream_path}

-- How far a request has come, with what it has found: the route, the application that it acts for,
-- the service, the response with the path that it was sent to, or the status to log.
pub data Phase : Type 0 where
  arrived : Phase
  matched : Route → Phase
  admitted within_limit : Route → (app_id : Text) → Phase
  located granted : Route → (app_id : Text) → Service → Phase
  responded : Route → (app_id : Text) → Service → Reply → (path : Text) → Phase
  logging : Route → (app_id : Text) → (status : ℕ) → Outcome → Phase
  ended : Outcome → Phase

module _ {R : Type 0} ⦃f : Float R⦄ (up : Upstream) (r : Request) (m : Moments) where
  -- One turn of a request.
  unfoldable pub advance : Phase → Gateway R → Gateway R × Phase
  advance arrived g = elim (match_route r.method r.path g.store) [
    | none ↦ (g, ended (refused (not_found (codes "未找到匹配的路由"))))
    | some route ↦ (g, matched route)
  ]
  advance (matched route) g = elim (caller route r m g) [
    | err e ↦ (g, logging route [] 401 (refused (unauthorized (error_text e))))
    | ok app_id ↦ (g, admitted route app_id)
  ]
  advance (admitted route app_id) g =
      let (g', allowed) = allow_request route m.at_limit g in
      (
        g',
        if allowed
            then within_limit route app_id
            else logging route app_id 429 (refused (error_reply 429 429 (codes "请求过于频繁，请稍后重试"))),
      )
  advance (within_limit route app_id) g = elim (get_service route.service_id g.store) [
    | err _ ↦ (g, logging route app_id 502 (refused (internal_error (codes "上游服务不存在"))))
    | ok svc ↦ (g, located route app_id svc)
  ]
  advance (located route app_id svc) g =
      let (g', allowed) = allow_service svc.id m.at_breaker g in
      (
        g',
        elim allowed [
          | true ↦ granted route app_id svc
          | false ↦ logging route app_id 503 (refused (error_reply 503 503 (codes "上游服务熔断中，请稍后重试")))
        ],
      )
  advance (granted route app_id svc) g = elim (up.base_path svc.base_url) [
    | none ↦ (g, logging route app_id 502 (refused (internal_error (codes "上游地址非法"))))
    | some base ↦
        let path = upstream_path route base r.path in
        let exchange = up.answer svc.base_url path in
        let reply = reply_of exchange in
        (
          g,
          if breaks_off exchange
              then (let target = some (svc.base_url, path) in
                  ended (record { reply = reply; forwarded = target; aborted = true }))
              else responded route app_id svc reply path,
        )
  ]
  advance (responded route app_id svc reply path) g = (
    record_service_result svc.id (ltb reply.status 500) m.at_result g,
    logging route app_id reply.status
        (record { reply = reply; forwarded = some (svc.base_url, path); aborted = false }),
  )
  advance (logging route app_id status outcome) g =
      (record_gateway_log route app_id r status m g, ended outcome)
  advance (ended outcome) g = (g, ended outcome)

  -- Some turns with nothing between them.
  unfoldable pub turns : ℕ → Phase → Gateway R → Gateway R × Phase
  turns zero p g = (g, p)
  turns (suc n) p g = let (g', p') = advance p g in turns n p' g'
