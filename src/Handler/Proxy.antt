-- ===== src/Handler/Proxy.antt =====
-- internal/handler/gateway_handler.go: the gateway's request handler.
pub mod ClientIp
pub mod Paths
pub mod Stripping
use adaptive_api_routing_gat.Base.{
  ℕ, ◌+◌, ◌/◌, ◌-◌, ◌++◌, Bool, true, false, ◌&&◌, Option, none, some, List, [], ◌∷◌, Text, codes,
  is_empty, has_prefix, trim_prefix, ltb, Result, ok, err, if◌then◌else◌, map,
}
use adaptive_api_routing_gat.Base.Time.{Time}
use adaptive_api_routing_gat.Base.Float.{Float}
use adaptive_api_routing_gat.Model.Services.{Service}
use adaptive_api_routing_gat.Model.Routes.{Route}
use adaptive_api_routing_gat.Model.Apps.{App}
use adaptive_api_routing_gat.Model.Logs.{RequestLog}
use adaptive_api_routing_gat.Store.Entities.{get_service}
use adaptive_api_routing_gat.Gateway.{Gateway, allow_request, allow_service, record_service_result}
use adaptive_api_routing_gat.Gateway.Matching.{match_route}
use adaptive_api_routing_gat.Gateway.Auth.{authenticate}
use adaptive_api_routing_gat.Gateway.Admin.Health.{record_request}
use adaptive_api_routing_gat.Handler.Replies.{
  Reply, error_reply, unauthorized, not_found, internal_error, error_text,
}
use adaptive_api_routing_gat.Handler.Proxy.ClientIp.{client_ip}
use adaptive_api_routing_gat.Handler.Proxy.Paths.{upstream_path}

-- What the handlers read of a request: `URL.Path` is the path with its percent-escapes decoded, and
-- `URL.EscapedPath()` is the path as it was sent. A header that is missing reads as the empty text.
pub record Request : Type 0 where
  pub method : Text
  pub path : Text
  pub escaped_path : Text
  pub api_key : Text
  pub forwarded_for : Text
  pub remote_addr : Text

-- The readings of the clock, in the order in which a request makes them, and the identifier of its
-- log entry.
pub record Moments : Type 0 where
  pub start : Time
  pub at_auth : Time
  pub at_limit : Time
  pub at_breaker : Time
  pub at_result : Time
  pub at_log : Time
  pub log_id : Text

-- What comes of a request to an upstream service: no response; a response that is copied to the
-- client; or one whose body cannot be copied to its end, after its status has been sent.
pub data Exchange : Type 0 where
  unreachable : Exchange
  copied broken_off : (status : ℕ) → Exchange

-- The network, and `net/url`: the path of a base URL, if it can be parsed, and what comes of a
-- request for a path.
pub record Upstream : Type 0 where
  pub base_path : Text → Option Text
  pub answer : (base_url path : Text) → Exchange

-- What a request led to: the reply, and the base URL and path that it was forwarded to, if it was;
-- and whether the handler panicked after it had sent the status of the reply.
pub record Outcome : Type 0 where
  pub reply : Reply
  pub forwarded : Option (Text × Text)
  pub aborted : Bool

abbrev pub refused : Reply → Outcome
refused reply = record { reply = reply; forwarded = none; aborted = false }

-- The response of the upstream service, copied to the client.
abbrev pub passed_on : ℕ → Reply
passed_on status = record { status = status; code = 0; message = [] }

abbrev pub reply_of : Exchange → Reply
reply_of unreachable = error_reply 502 502 (codes "上游服务不可用")
reply_of (copied status) = passed_on status
reply_of (broken_off status) = passed_on status

-- `ReverseProxy` panics with `http.ErrAbortHandler` if it cannot copy the body.
abbrev pub breaks_off : Exchange → Bool
breaks_off unreachable = false
breaks_off (copied status) = false
breaks_off (broken_off status) = true

-- `time.Since(start).Milliseconds()`
abbrev pub millis_since : Time → Time → ℕ
millis_since start now = (now - start) / 1_000_000

abbrev pub log_entry : Route → (app_id : Text) → Request → ℕ → Moments → RequestLog
log_entry route app_id r status m = record {
  id = [];
  route_id = route.id;
  app_id = app_id;
  method = r.method;
  path = r.path;
  status_code = status;
  latency_ms = millis_since m.start m.at_log;
  client_ip = client_ip r.forwarded_for r.remote_addr;
  timestamp = m.start;
}

module _ {R : Type 0} ⦃f : Float R⦄ where
  unfoldable pub record_gateway_log :
      Route → (app_id : Text) → Request → ℕ → Moments → Gateway R → Gateway R
  record_gateway_log route app_id r status m g = record g {
    store = (record_request m.log_id m.at_log (log_entry route app_id r status m) g.store).0;
  }

  -- The status to log, and the outcome. A status of 500 or more is a failure of the service. A panic
  -- leaves the handler before the result is recorded, and nothing is logged.
  unfoldable pub proxy_request :
      Upstream → Request → Service → Route → Moments → Gateway R → Gateway R × ℕ × Outcome
  proxy_request up r svc route m g = elim (up.base_path svc.base_url) [
    | none ↦ (g, 502, refused (internal_error (codes "上游地址非法")))
    | some base ↦
        let path = upstream_path route base r.path in
        let exchange = up.answer svc.base_url path in
        let reply = reply_of exchange in
        let aborted = breaks_off exchange in
        (
          if aborted then g else record_service_result svc.id (ltb reply.status 500) m.at_result g,
          reply.status,
          record { reply = reply; forwarded = some (svc.base_url, path); aborted = aborted },
        )
  ]

  -- Steps 4 to 6, for a request that may pass: the service, its breaker, the upstream.
  unfoldable pub forward :
      Upstream → Request → Route → (app_id : Text) → Moments → Gateway R → Gateway R × Outcome
  forward up r route app_id m g = elim (get_service route.service_id g.store) [
    | err _ ↦
        (record_gateway_log route app_id r 502 m g, refused (internal_error (codes "上游服务不存在")))
    | ok svc ↦
        let (g', granted) = allow_service svc.id m.at_breaker g in
        elim granted [
          | true ↦
              let (g'', status, outcome) = proxy_request up r svc route m g' in
              (
                if outcome.aborted then g'' else record_gateway_log route app_id r status m g'',
                outcome,
              )
          | false ↦ (
            record_gateway_log route app_id r 503 m g',
            refused (error_reply 503 503 (codes "上游服务熔断中，请稍后重试")),
          )
        ]
  ]

  -- Step 3, the rate limit, and what follows.
  unfoldable pub limit_and_forward :
      Upstream → Request → Route → (app_id : Text) → Moments → Gateway R → Gateway R × Outcome
  limit_and_forward up r route app_id m g =
      let (g', allowed) = allow_request route m.at_limit g in
      if allowed then forward up r route app_id m g' else (
        record_gateway_log route app_id r 429 m g',
        refused (error_reply 429 429 (codes "请求过于频繁，请稍后重试")),
      )

  -- Step 2: the application that a request acts for, none if the route needs none.
  abbrev pub caller : Route → Request → Moments → Gateway R → Result Text
  caller route r m g =
      if route.requires_auth
      then (elim (authenticate r.api_key m.at_auth g.store) [ ok app ↦ ok app.id | err e ↦ err e ])
      else ok []

  unfoldable pub gateway_handler : Upstream → Request → Moments → Gateway R → Gateway R × Outcome
  gateway_handler up r m g = elim (match_route r.method r.path g.store) [
    | none ↦ (g, refused (not_found (codes "未找到匹配的路由")))
    | some route ↦ elim (caller route r m g) [
      | err e ↦ (record_gateway_log route [] r 401 m g, refused (unauthorized (error_text e)))
      | ok app_id ↦ limit_and_forward up r route app_id m g
    ]
  ]
