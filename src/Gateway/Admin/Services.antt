-- ===== src/Gateway/Admin/Services.antt =====
-- internal/service/service_service.go. `now` and the two fresh identifiers are arguments.
use adaptive_api_routing_gat.Base.{Bool, Text, is_empty, if◌then◌else◌, select, ltb, ℕ}
use adaptive_api_routing_gat.Base.Int.{ℤ, pos}
use adaptive_api_routing_gat.Base.Time.{Time}
use adaptive_api_routing_gat.Base.Sort.{sort_slice}
use adaptive_api_routing_gat.Model.Services.{Service, validate, ServiceFilter, matches}
use adaptive_api_routing_gat.Model.HealthChecks.{HealthCheck, health_healthy}
use adaptive_api_routing_gat.Store.Memory.{MemoryStore}
use adaptive_api_routing_gat.Store.Entities
use adaptive_api_routing_gat.Store.Health.{create_health_check}
use adaptive_api_routing_gat.Gateway.Paging.{Page, paginate}
use adaptive_api_routing_gat.Gateway.Admin.{Action, ◌>>=◌, ◌>>◌, pure, read, write, modify, check}

-- The health check that a new service gets.
abbrev pub initial_health_check : Text → Text → Time → HealthCheck
initial_health_check id service_id now = record {
  id = id;
  service_id = service_id;
  status = health_healthy;
  latency_ms = 0;
  failure_count = pos 0;
  last_checked = now;
}

abbrev pub stamped : Text → Time → Service → Service
stamped id now v = record v { id = id; created_at = now; updated_at = now }

unfoldable pub create_service : (id health_id : Text) → Time → Service → Action Service
create_service id health_id now v = do
  let checked = validate v
  check checked.1
  let created = stamped id now checked.0
  write (Entities.create_service created)
  modify (create_health_check (initial_health_check health_id id now))
  pure created

unfoldable pub get_service : Text → Action Service
get_service id = read (Entities.get_service id)

unfoldable pub get_service_by_name : Text → Action Service
get_service_by_name name = read (Entities.get_service_by_name name)

-- `CreatedAt.After`, for the newest first.
abbrev newer : Service → Service → Bool
newer a b = ltb b.created_at a.created_at

unfoldable pub list_services : (lower : ℕ → ℕ) → ServiceFilter → ℤ → ℤ → MemoryStore → Page Service
list_services lower filter p size s =
    paginate (sort_slice newer (select (matches lower filter) (Entities.list_services s))) p size

abbrev pub renewed : Time → Service → Service → Service
renewed now v exist = record exist {
  name = v.name;
  base_url = v.base_url;
  timeout = v.timeout;
  retries = v.retries;
  status = if is_empty v.status then exist.status else v.status;
  updated_at = now;
}

unfoldable pub update_service : Text → Time → Service → Action Service
update_service id now v = do
  exist ← read (Entities.get_service id)
  let checked = validate (renewed now v exist)
  modify (Entities.assign_service id checked.0)
  check checked.1
  write (Entities.update_service checked.0)
  pure checked.0

unfoldable pub delete_service : Text → Action (Unit {0})
delete_service id = write (Entities.delete_service id)
