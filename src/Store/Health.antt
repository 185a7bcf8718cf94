-- ===== src/Store/Health.antt =====
-- The methods of internal/store/health_check_store.go and request_log_store.go, which never refuse
-- a new record.
use adaptive_api_routing_gat.Base.{
  Text, same, List, none, some, lookup, insert, values, Result, ok, err, err_not_found,
}
use adaptive_api_routing_gat.Model.Logs.{RequestLog}
use adaptive_api_routing_gat.Model.HealthChecks.{HealthCheck}
use adaptive_api_routing_gat.Store.Table.{get, find}
use adaptive_api_routing_gat.Store.Memory.{MemoryStore}

unfoldable pub create_health_check : HealthCheck → MemoryStore → MemoryStore
create_health_check h s = record s { health_checks = insert h.id h s.health_checks }

unfoldable pub get_health_check : Text → MemoryStore → Result HealthCheck
unfolding get
get_health_check id s = get id s.health_checks

unfoldable pub get_health_check_by_service : Text → MemoryStore → Result HealthCheck
unfolding find
get_health_check_by_service service_id s = find (λ h. same h.service_id service_id) s.health_checks

unfoldable pub list_health_checks : MemoryStore → List HealthCheck
list_health_checks s = values s.health_checks

unfoldable pub update_health_check : HealthCheck → MemoryStore → Result MemoryStore
update_health_check h s = elim (lookup h.id s.health_checks) [
  | none ↦ err err_not_found
  | some _ ↦ ok (record s { health_checks = insert h.id h s.health_checks })
]

-- A write through the pointer that the store holds under `id`.
unfoldable pub assign_health_check : Text → HealthCheck → MemoryStore → MemoryStore
assign_health_check id h s = record s { health_checks = insert id h s.health_checks }

unfoldable pub create_request_log : RequestLog → MemoryStore → MemoryStore
create_request_log l s = record s { request_logs = insert l.id l s.request_logs }

unfoldable pub get_request_log : Text → MemoryStore → Result RequestLog
unfolding get
get_request_log id s = get id s.request_logs

unfoldable pub list_request_logs : MemoryStore → List RequestLog
list_request_logs s = values s.request_logs
