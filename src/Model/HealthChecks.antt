-- ===== src/Model/HealthChecks.antt =====
-- internal/model/health_check.go
pub mod Probes
use adaptive_api_routing_gat.Base.{ℕ, ◌+◌, Bool, Text, codes, if◌then◌else◌}
use adaptive_api_routing_gat.Base.Int.{ℤ, pos, ◌+ℤ◌, leb_ℤ, wrap}
use adaptive_api_routing_gat.Base.Time.{Time}

abbrev pub health_healthy : Text
health_healthy = codes "healthy"

abbrev pub health_unhealthy : Text
health_unhealthy = codes "unhealthy"

pub record HealthCheck : Type 0 where
  pub id : Text
  pub service_id : Text
  pub status : Text
  pub latency_ms : ℕ
  pub failure_count : ℤ
  pub last_checked : Time

-- `Record`, at the time `now`.
unfoldable pub record_probe : Time → Bool → ℕ → HealthCheck → HealthCheck
record_probe now success latency_ms h =
    let failures = wrap (h.failure_count +ℤ pos 1) in
    if success
    then record h {
      last_checked = now;
      latency_ms = latency_ms;
      status = health_healthy;
      failure_count = pos 0;
    }
    else record h {
      last_checked = now;
      latency_ms = latency_ms;
      failure_count = failures;
      status = if leb_ℤ (pos 3) failures then health_unhealthy else h.status;
    }
