-- ===== src/Gateway/Admin/Health.antt =====
-- internal/service/health_check_service.go and request_log_service.go. What the network answers a
-- probe is a parameter: for a base URL and a timeout in seconds, the status of the response, if
-- one came, and the latency in milliseconds.
use adaptive_api_routing_gat.Base.{
  ℕ, Bool, false, ◌&&◌, Option, none, some, Text, List, [], ◌∷◌, ok, err, same, leb, ltb, select,
  if◌then◌else◌,
}
use adaptive_api_routing_gat.Base.Int.{ℤ, pos, leb_ℤ}
use adaptive_api_routing_gat.Base.Time.{Time, is_zero}
use adaptive_api_routing_gat.Base.Sort.{sort_slice}
use adaptive_api_routing_gat.Model.Services.{Service, service_active}
use adaptive_api_routing_gat.Model.HealthChecks.{HealthCheck, record_probe, health_healthy}
use adaptive_api_routing_gat.Model.Logs.{RequestLog, RequestLogFilter, matches}
use adaptive_api_routing_gat.Store.Memory.{MemoryStore}
use adaptive_api_routing_gat.Store.Entities
use adaptive_api_routing_gat.Store.Health
use adaptive_api_routing_gat.Gateway.Paging.{Page, paginate}
use adaptive_api_routing_gat.Gateway.Admin.{Action, ◌>>=◌, ◌>>◌, pure, read, write, modify}

abbrev pub Network : Type 0
Network = Text → ℤ → Option ℕ × ℕ

abbrev is_alive : Option ℕ → Bool
is_alive none = false
is_alive (some status) = leb 200 status && ltb status 500

unfoldable pub ping : Network → Text → ℤ → Bool × ℕ
ping network base_url timeout =
    let (response, latency) = network base_url (if leb_ℤ timeout (pos 0) then pos 5 else timeout) in
    (is_alive response, latency)

-- A health check that is made for a probe has never been checked.
abbrev pub unchecked : Text → Text → HealthCheck
unchecked id service_id = record {
  id = id;
  service_id = service_id;
  status = health_healthy;
  latency_ms = 0;
  failure_count = pos 0;
  last_checked = 0;
}

-- The health check of a service, made if there is none.
unfoldable pub health_check_for : (fresh_id service_id : Text) → Action HealthCheck
health_check_for fresh_id service_id s = elim (Health.get_health_check_by_service service_id s) [
  | ok h ↦ (s, ok h)
  | err _ ↦ let h = unchecked fresh_id service_id in (Health.create_health_check h s, ok h)
]

unfoldable pub probe_service : Network → (fresh_id : Text) → Time → Text → Action HealthCheck
unfolding health_check_for ping
probe_service network fresh_id now service_id = do
  service ← read (Entities.get_service service_id)
  h ← health_check_for fresh_id service_id
  let answer = ping network service.base_url service.timeout
  let probed = record_probe now answer.0 answer.1 h
  modify (Health.assign_health_check h.id probed)
  write (Health.update_health_check probed)
  pure probed

-- What the health checker does with a service of its list: a probe if it is active; an error is only
-- logged.
unfoldable pub check_service :
    Network → (fresh_id : Text) → Time → Service → MemoryStore → MemoryStore
check_service network fresh_id now v s =
    if same v.status service_active then (probe_service network fresh_id now v.id s).0 else s

-- One tick of the health checker, over the services listed at its start. A fresh identifier is drawn
-- for each service.
unfoldable pub tick :
    Network → (fresh : Text → Text) → Time → List Service → MemoryStore → MemoryStore
tick network fresh now [] s = s
tick network fresh now (v ∷ vs) s =
    tick network fresh now vs (check_service network (fresh v.id) now v s)

abbrev checked_later : HealthCheck → HealthCheck → Bool
checked_later a b = ltb b.last_checked a.last_checked

unfoldable pub list_health_checks : ℤ → ℤ → MemoryStore → Page HealthCheck
list_health_checks p size s =
    paginate (sort_slice checked_later (Health.list_health_checks s)) p size

unfoldable pub get_health_check : Text → Action HealthCheck
get_health_check service_id = read (Health.get_health_check_by_service service_id)

-- `RecordRequest`: the log as it is stored, with its identifier and its time.
unfoldable pub record_request : Text → Time → RequestLog → MemoryStore → MemoryStore × RequestLog
record_request id now l s =
    let stored : RequestLog = record l {
      id = id;
      timestamp = if is_zero l.timestamp then now else l.timestamp;
    } in
    (Health.create_request_log stored s, stored)

unfoldable pub get_request_log : Text → Action RequestLog
get_request_log id = read (Health.get_request_log id)

abbrev later : RequestLog → RequestLog → Bool
later a b = ltb b.timestamp a.timestamp

unfoldable pub list_request_logs : RequestLogFilter → ℤ → ℤ → MemoryStore → Page RequestLog
list_request_logs filter p size s =
    paginate (sort_slice later (select (matches filter) (Health.list_request_logs s))) p size
