-- ===== src/Handler/Probing.antt =====
-- A half-open breaker under the gateway's handler.
use adaptive_api_routing_gat.Base.{
  ◌≡◌, refl, ap, ◌∙◌, true, false, none, some, Text, codes, lookup, ok, arith,
}
use adaptive_api_routing_gat.Base.Float.{Float}
use adaptive_api_routing_gat.Base.Time.{Time}
use adaptive_api_routing_gat.CircuitBreaker
use adaptive_api_routing_gat.CircuitBreaker.{CircuitBreaker, half_open, open_state}
use adaptive_api_routing_gat.Model.Services.{Service}
use adaptive_api_routing_gat.Model.Routes.{Route}
use adaptive_api_routing_gat.Store.Entities.{get_service}
use adaptive_api_routing_gat.Gateway.{Gateway, allow_service}
use adaptive_api_routing_gat.Gateway.Probing.{allow_service-allow}
use adaptive_api_routing_gat.Handler.Replies.{error_reply, internal_error}
use adaptive_api_routing_gat.Handler.Proxy.{
  Request, Moments, Upstream, refused, record_gateway_log, proxy_request, forward, breaks_off,
}
use adaptive_api_routing_gat.Handler.Proxy.Paths.{upstream_path}
use adaptive_api_routing_gat.Handler.Logging.{allow_service-store}

allow-granted :
    (now : Time) (b : CircuitBreaker)
    → b.state ≡ open_state
    → (CircuitBreaker.allow now b).1 ≡ true
    → (CircuitBreaker.allow now b).0 ≡ record b { state = half_open }
unfolding CircuitBreaker.allow
allow-granted now b is_open granted = ground arith

module _ {R : Type 0} ⦃f : Float R⦄ where
  module _ (up : Upstream) (r : Request) (m : Moments) where
    proxy_request-unparsed :
        (svc : Service) (route : Route) (g : Gateway R)
        → up.base_path svc.base_url ≡ none
        → proxy_request up r svc route m g ≡ (g, 502, refused (internal_error (codes "上游地址非法")))
    unfolding proxy_request
    proxy_request-unparsed svc route g bad = rw (bad, proxy_request)

    -- A request for a service whose breaker is half open is answered with 503 and not sent, and
    -- the breaker stays as it is.
    pub forward-half_open :
        (route : Route) (app_id : Text) (g : Gateway R) (svc : Service) (b : CircuitBreaker)
        → get_service route.service_id g.store ≡ ok svc
        → lookup svc.id g.breakers ≡ some b
        → b.state ≡ half_open
        → ((forward up r route app_id m g).1
            ≡ refused (error_reply 503 503 (codes "上游服务熔断中，请稍后重试")))
          × (lookup svc.id (forward up r route app_id m g).0.breakers ≡ some b)
    unfolding forward CircuitBreaker.allow record_gateway_log
    forward-half_open route app_id g svc b stored at_b probing =
        let (answer, kept) = allow_service-allow svc.id m.at_breaker g b at_b in
        let answered : (allow_service svc.id m.at_breaker g).1 ≡ false = answer ∙ rw probing in
        let left : lookup svc.id (allow_service svc.id m.at_breaker g).0.breakers ≡ some b =
          kept ∙ rw probing in
        (rw (stored, answered, forward), rw (stored, answered, forward) left)

    -- If the base URL of a service cannot be parsed, the request that an open breaker grants as its
    -- probe is answered with 500 and leaves the breaker half open: no result is recorded.
    pub forward-unparsed :
        (route : Route) (app_id : Text) (g : Gateway R) (svc : Service) (b : CircuitBreaker)
        → get_service route.service_id g.store ≡ ok svc
        → up.base_path svc.base_url ≡ none
        → lookup svc.id g.breakers ≡ some b
        → b.state ≡ open_state
        → (CircuitBreaker.allow m.at_breaker b).1 ≡ true
        → ((forward up r route app_id m g).1.reply.status ≡ 500)
          × (lookup svc.id (forward up r route app_id m g).0.breakers
              ≡ some (record b { state = half_open }))
    unfolding forward record_gateway_log
    forward-unparsed route app_id g svc b stored bad at_b is_open granted =
        let (answer, kept) = allow_service-allow svc.id m.at_breaker g b at_b in
        let after = (allow_service svc.id m.at_breaker g).0 in
        let answered : (allow_service svc.id m.at_breaker g).1 ≡ true = answer ∙ granted in
        let left = kept ∙ ap some (allow-granted m.at_breaker b is_open granted) in
        let unparsed = proxy_request-unparsed svc route after bad in
        (rw (stored, answered, unparsed, forward), rw (stored, answered, unparsed, forward) left)

    proxy_request-broken_off :
        (svc : Service) (route : Route) (g : Gateway R) {base : Text}
        → up.base_path svc.base_url ≡ some base
        → breaks_off (up.answer svc.base_url (upstream_path route base r.path)) ≡ true
        → ((proxy_request up r svc route m g).0 ≡ g)
          × ((proxy_request up r svc route m g).2.aborted ≡ true)
    unfolding proxy_request
    proxy_request-broken_off svc route g parsed broken =
        (rw (parsed, broken, proxy_request) refl, rw (parsed, broken, proxy_request) refl)

    -- If the response of a service breaks off while it is copied, the handler of the request that an
    -- open breaker grants as its probe panics: the breaker is left half open, with no result
    -- recorded, and the store is as it was, with no entry for the request in its log.
    pub forward-broken_off :
        (route : Route) (app_id : Text) (g : Gateway R) (svc : Service) (b : CircuitBreaker)
        {base : Text}
        → get_service route.service_id g.store ≡ ok svc
        → up.base_path svc.base_url ≡ some base
        → breaks_off (up.answer svc.base_url (upstream_path route base r.path)) ≡ true
        → lookup svc.id g.breakers ≡ some b
        → b.state ≡ open_state
        → (CircuitBreaker.allow m.at_breaker b).1 ≡ true
        → ((forward up r route app_id m g).1.aborted ≡ true)
          × (lookup svc.id (forward up r route app_id m g).0.breakers
              ≡ some (record b { state = half_open }))
          × ((forward up r route app_id m g).0.store ≡ g.store)
    unfolding forward
    forward-broken_off route app_id g svc b stored parsed broken at_b is_open granted =
        let (answer, kept) = allow_service-allow svc.id m.at_breaker g b at_b in
        let after = (allow_service svc.id m.at_breaker g).0 in
        let answered : (allow_service svc.id m.at_breaker g).1 ≡ true = answer ∙ granted in
        let left = kept ∙ ap some (allow-granted m.at_breaker b is_open granted) in
        let (same_state, aborts) = proxy_request-broken_off svc route after parsed broken in
        (
          rw (stored, answered, forward) aborts,
          rw (stored, answered, forward, aborts, same_state) left,
          rw (stored, answered, forward, aborts, same_state)
              (allow_service-store svc.id m.at_breaker g),
        )
