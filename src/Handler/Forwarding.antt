-- ===== src/Handler/Forwarding.antt =====
-- When a request reaches an upstream service.
use adaptive_api_routing_gat.Base.{
  none-ne-some, ◌≡◌, true, some, Option-cases, ok, Result-cases, Bool-cases, Text, inl, inr, arith,
}
use adaptive_api_routing_gat.Base.Float.{Float}
use adaptive_api_routing_gat.Model.Services.{Service}
use adaptive_api_routing_gat.Model.Routes.{Route}
use adaptive_api_routing_gat.Store.Entities.{get_service}
use adaptive_api_routing_gat.Gateway.{Gateway, allow_request, allow_service}
use adaptive_api_routing_gat.Gateway.Matching.{match_route}
use adaptive_api_routing_gat.Handler.Proxy.{
  Request, Moments, Upstream, proxy_request, forward, limit_and_forward, caller, gateway_handler,
}
use adaptive_api_routing_gat.Handler.Proxy.Paths.{upstream_path}

module _ {R : Type 0} ⦃f : Float R⦄ (up : Upstream) (r : Request) (m : Moments) where
  -- The request was sent to a service for a route.
  pub record IsSent (route : Route) (g : Gateway R) (base_url path : Text) : Type 0 where
    pub service : Service
    pub stored : get_service route.service_id g.store ≡ ok service
    pub granted : (allow_service service.id m.at_breaker g).1 ≡ true
    pub base_path : Text
    pub parsed : up.base_path service.base_url ≡ some base_path
    pub same_url : base_url ≡ service.base_url
    pub same_path : path ≡ upstream_path route base_path r.path

  proxy_request-forwarded :
      (svc : Service) (route : Route) (g : Gateway R) {base_url path : Text}
      → (proxy_request up r svc route m g).2.forwarded ≡ some (base_url, path)
      → (base : Text) × (up.base_path svc.base_url ≡ some base)
        × (base_url ≡ svc.base_url)
        × (path ≡ upstream_path route base r.path)
  unfolding proxy_request
  proxy_request-forwarded svc route g e = elim (Option-cases (up.base_path svc.base_url)) [
    | inl bad ↦ absurd (none-ne-some (rw (bad, proxy_request) at e))
    | inr (base, parsed) ↦ (base, parsed, ground arith, ground arith)
  ]

  forward-IsSent :
      (route : Route) (app_id : Text) (g : Gateway R) {base_url path : Text}
      → (forward up r route app_id m g).1.forwarded ≡ some (base_url, path)
      → IsSent route g base_url path
  unfolding forward
  forward-IsSent route app_id g e = elim (Result-cases (get_service route.service_id g.store)) [
    | inr (x, missing) ↦ absurd (none-ne-some (rw (missing, forward) at e))
    | inl (service, stored) ↦
        let after = (allow_service service.id m.at_breaker g).0 in
        elim (Bool-cases (allow_service service.id m.at_breaker g).1) [
          | inr open_breaker ↦ absurd (ground arith)
          | inl granted ↦
              let (base, parsed, same_url, same_path) =
                proxy_request-forwarded service route after (ground arith) in
              record {
                service = service;
                stored = stored;
                granted = granted;
                base_path = base;
                parsed = parsed;
                same_url = same_url;
                same_path = same_path;
              }
        ]
  ]

  limit_and_forward-IsSent :
      (route : Route) (app_id : Text) (g : Gateway R) {base_url path : Text}
      → (limit_and_forward up r route app_id m g).1.forwarded ≡ some (base_url, path)
      → ((allow_request route m.at_limit g).1 ≡ true)
        × IsSent route (allow_request route m.at_limit g).0 base_url path
  unfolding limit_and_forward
  limit_and_forward-IsSent route app_id g e =
      elim (Bool-cases (allow_request route m.at_limit g).1) [
        | inr limited ↦ absurd (ground arith)
        | inl allowed ↦ (
          allowed,
          forward-IsSent route app_id (allow_request route m.at_limit g).0 (ground arith),
        )
      ]

  -- A request is sent to a service only if a stored route matches it; the caller is authenticated
  -- where the route asks for it; the rate limit of the route lets it pass; the route's service is
  -- stored and its breaker, asked after the rate limit, grants the call. It goes to the base URL
  -- of that service.
  pub gateway_handler-IsSent :
      (g : Gateway R) {base_url path : Text}
      → (gateway_handler up r m g).1.forwarded ≡ some (base_url, path)
      → (route : Route) × (app_id : Text) × (match_route r.method r.path g.store ≡ some route)
        × (caller route r m g ≡ ok app_id)
        × ((allow_request route m.at_limit g).1 ≡ true)
        × IsSent route (allow_request route m.at_limit g).0 base_url path
  unfolding gateway_handler
  gateway_handler-IsSent g e = elim (Option-cases (match_route r.method r.path g.store)) [
    | inl unmatched ↦ absurd (none-ne-some (rw (unmatched, gateway_handler) at e))
    | inr (route, matched) ↦ elim (Result-cases (caller route r m g)) [
      | inr (x, unknown) ↦ absurd (ground arith)
      | inl (app_id, known) ↦
          let (allowed, sent) = limit_and_forward-IsSent route app_id g (ground arith) in
          (route, app_id, matched, known, allowed, sent)
    ]
  ]
