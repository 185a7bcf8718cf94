-- ===== src/Model/Logs.antt =====
-- internal/model/request_log.go. A status code and a latency are never negative.
use adaptive_api_routing_gat.Base.{
  ℕ, Bool, true, false, not, ◌&&◌, Text, same, is_empty, if◌then◌else◌,
}
use adaptive_api_routing_gat.Base.Int.{ℤ, pos, eq_ℤ}
use adaptive_api_routing_gat.Base.Time.{Time}

pub record RequestLog : Type 0 where
  pub id : Text
  pub route_id : Text
  pub app_id : Text
  pub method : Text
  pub path : Text
  pub status_code : ℕ
  pub latency_ms : ℕ
  pub client_ip : Text
  pub timestamp : Time

pub record RequestLogFilter : Type 0 where
  pub route_id : Text
  pub app_id : Text
  pub status_code : ℤ

unfoldable pub matches : RequestLogFilter → RequestLog → Bool
matches f l =
    if not (is_empty f.route_id) && not (same l.route_id f.route_id)
    then false
    else if not (is_empty f.app_id) && not (same l.app_id f.app_id)
    then false
    else if not (eq_ℤ f.status_code (pos 0)) && not (eq_ℤ (pos l.status_code) f.status_code)
    then false
    else true
