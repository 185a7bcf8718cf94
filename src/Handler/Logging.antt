-- ===== src/Handler/Logging.antt =====
-- What the gateway records of a request.
use adaptive_api_routing_gat.Base.{
  ℕ, ◌≡◌, refl, ap, ◌∙◌, some, Option-cases, Result, ok, err, true, false, Result-cases, Bool-cases,
  [], Text, same, inl, inr, ◌⊎◌, arith, if◌then◌else◌, lookup-insert,
}
use adaptive_api_routing_gat.Base.Float.{Float}
use adaptive_api_routing_gat.Model.Services.{Service}
use adaptive_api_routing_gat.Model.Routes.{Route}
use adaptive_api_routing_gat.Model.Logs.{RequestLog}
use adaptive_api_routing_gat.Store.Memory.{MemoryStore}
use adaptive_api_routing_gat.Store.Table.{get}
use adaptive_api_routing_gat.Store.Entities.{get_service}
use adaptive_api_routing_gat.Store.Health.{get_request_log, create_request_log}
use adaptive_api_routing_gat.Gateway.{Gateway, allow_request, allow_service, record_service_result}
use adaptive_api_routing_gat.Gateway.Matching.{match_route}
use adaptive_api_routing_gat.Gateway.Admin.Health.{record_request}
use adaptive_api_routing_gat.Handler.Proxy.{
  Request, Moments, Upstream, Outcome, record_gateway_log, proxy_request, forward, log_entry,
  limit_and_forward, caller, gateway_handler,
}

-- The status that is logged for a reply: the reply's own, but 502 for some replies of 500.
abbrev pub Logs : ℕ → ℕ → Type 0
Logs logged replied = (logged ≡ replied) ⊎ ((logged ≡ 502) × (replied ≡ 500))

-- The application that a request acts for: none, where it needs none or is not authenticated.
abbrev pub app_of : Result Text → Text
app_of (ok app_id) = app_id
app_of (err _) = []

-- One entry was added to the logs of a store, with the route, the caller, the method, the path and a
-- status.
pub record IsLogged (r : Request) (m : Moments) (k route_id app_id : Text) (replied : ℕ)
    (before after : MemoryStore) : Type 0 where
  pub entry : RequestLog
  pub added :
      get_request_log k after ≡ (if same m.log_id k then ok entry else get_request_log k before)
  pub route : entry.route_id ≡ route_id
  pub app : entry.app_id ≡ app_id
  pub method : entry.method ≡ r.method
  pub path : entry.path ≡ r.path
  pub status : Logs entry.status_code replied

-- A request that the handler finished is logged once; one whose handler panicked is not.
abbrev pub IsRecorded :
    Request
    → Moments
    → (k : Text) → Route
    → (app_id : Text) → (before after : MemoryStore) → Outcome
    → Type 0
IsRecorded r m k route app_id before after o =
    ((o.aborted ≡ false) × IsLogged r m k route.id app_id o.reply.status before after)
    ⊎ ((o.aborted ≡ true) × (after ≡ before))

get_request_log-create_request_log :
    (l : RequestLog) (k : Text) (s : MemoryStore)
    → get_request_log k (create_request_log l s)
      ≡ (if same l.id k then ok l else get_request_log k s)
unfolding create_request_log get_request_log get
get_request_log-create_request_log l k s = ground (arith, lookup-insert l.id k l s.request_logs)

module _ {R : Type 0} ⦃f : Float R⦄ where
  allow_request-store :
      (route : Route) (now : ℕ) (g : Gateway R) → (allow_request route now g).0.store ≡ g.store
  unfolding allow_request
  allow_request-store route now g = ground arith

  pub allow_service-store :
      (id : Text) (now : ℕ) (g : Gateway R) → (allow_service id now g).0.store ≡ g.store
  unfolding allow_service
  allow_service-store id now g = ground arith

  proxy_request-store :
      (up : Upstream) (r : Request) (m : Moments) (svc : Service) (route : Route) (g : Gateway R)
      → (proxy_request up r svc route m g).0.store ≡ g.store
  unfolding proxy_request record_service_result
  proxy_request-store up r m svc route g = ground arith

  module _ (up : Upstream) (r : Request) (m : Moments) (k : Text) where
    log-IsLogged :
        (route : Route) (app_id : Text) (status replied : ℕ) (g : Gateway R) (before : MemoryStore)
        → g.store ≡ before
        → Logs status replied
        → IsLogged r m k route.id app_id replied before
            (record_gateway_log route app_id r status m g).store
    unfolding record_gateway_log record_request
    log-IsLogged route app_id status replied g before e h =
        let stored =
          (record_request m.log_id m.at_log (log_entry route app_id r status m) g.store).1 in
        record {
          entry = stored;
          added =
              ap (get_request_log k) refl
              ∙ get_request_log-create_request_log stored k g.store
              ∙ ap (λ s. if same m.log_id k then ok stored else get_request_log k s) e;
          route = refl;
          app = refl;
          method = refl;
          path = refl;
          status = h;
        }

    proxy_request-Logs :
        (svc : Service) (route : Route) (g : Gateway R)
        → Logs
            (proxy_request up r svc route m g).1
            (proxy_request up r svc route m g).2.reply.status
    unfolding proxy_request
    proxy_request-Logs svc route g = elim (Option-cases (up.base_path svc.base_url)) [
      | inl bad ↦ inr (ground arith, ground arith)
      | inr (base, parsed) ↦ inl (ground arith)
    ]

    forward-IsRecorded :
        (route : Route) (app_id : Text) (g : Gateway R) (before : MemoryStore)
        → g.store ≡ before
        → IsRecorded r m k route app_id before
            (forward up r route app_id m g).0.store
            (forward up r route app_id m g).1
    unfolding forward
    forward-IsRecorded route app_id g before e =
        elim (Result-cases (get_service route.service_id g.store)) [
          | inr (x, missing) ↦
              rw (missing, forward)
                (inl (refl, log-IsLogged route app_id 502 500 g before e (inr (refl, refl))))
          | inl (svc, stored) ↦
              let after = (allow_service svc.id m.at_breaker g).0 in
              let same_store = allow_service-store svc.id m.at_breaker g ∙ e in
              let sent = (proxy_request up r svc route m after).0 in
              let kept = proxy_request-store up r m svc route after ∙ same_store in
              elim (Bool-cases (allow_service svc.id m.at_breaker g).1) [
                | inr open_breaker ↦
                    rw (stored, open_breaker, forward)
                      (inl (
                        refl,
                        log-IsLogged route app_id 503 503 after before same_store (inl refl),
                      ))
                | inl granted ↦ elim (Bool-cases (proxy_request up r svc route m after).2.aborted) [
                  | inl panics ↦ rw (stored, granted, panics, forward) (inr (refl, kept))
                  | inr finished ↦
                      rw (stored, granted, finished, forward)
                        (inl (
                          refl,
                          log-IsLogged route app_id _ _ sent before kept
                              (proxy_request-Logs svc route after),
                        ))
                ]
              ]
        ]

    limit_and_forward-IsRecorded :
        (route : Route) (app_id : Text) (g : Gateway R)
        → IsRecorded r m k route app_id g.store
            (limit_and_forward up r route app_id m g).0.store
            (limit_and_forward up r route app_id m g).1
    unfolding limit_and_forward
    limit_and_forward-IsRecorded route app_id g =
        let after = (allow_request route m.at_limit g).0 in
        let same_store = allow_request-store route m.at_limit g in
        elim (Bool-cases (allow_request route m.at_limit g).1) [
          | inl allowed ↦ rw allowed (forward-IsRecorded route app_id after g.store same_store)
          | inr limited ↦
              rw limited
                (inl (refl, log-IsLogged route app_id 429 429 after g.store same_store (inl refl)))
        ]

    -- A request that a route matches adds one entry to the log of the store, under its fresh
    -- identifier, and leaves the other entries: the entry has the route, the application that the
    -- request acts for, its method and path, and the status of the reply, or 502 where the reply is
    -- 500. Only a request whose handler panics, as the response of the service cannot be copied to
    -- its end, leaves the store as it was.
    pub gateway_handler-IsLogged :
        (route : Route) (g : Gateway R)
        → match_route r.method r.path g.store ≡ some route
        → IsRecorded r m k route
            (app_of (caller route r m g))
            g.store
            (gateway_handler up r m g).0.store
            (gateway_handler up r m g).1
    unfolding gateway_handler
    gateway_handler-IsLogged route g matched = elim (Result-cases (caller route r m g)) [
      | inr (x, unknown) ↦
          rw (matched, unknown, gateway_handler)
            (inl (refl, log-IsLogged route [] 401 401 g g.store refl (inl refl)))
      | inl (app_id, known) ↦
          rw (matched, known, gateway_handler) (limit_and_forward-IsRecorded route app_id g)
    ]
