-- ===== src/Store/Entities.antt =====
-- The methods of internal/store/service_store.go, route_store.go, app_store.go, api_key_store.go
-- and rate_limit_rule_store.go.
pub mod ReadBack
use adaptive_api_routing_gat.Base.{Bool, ◌&&◌, Text, same, List, insert, values, Result, ok, ◌>>=◌}
use adaptive_api_routing_gat.Model.Services.{Service}
use adaptive_api_routing_gat.Model.Routes.{Route}
use adaptive_api_routing_gat.Model.Apps.{App}
use adaptive_api_routing_gat.Model.ApiKeys.{ApiKey}
use adaptive_api_routing_gat.Model.Rules.{RateLimitRule}
use adaptive_api_routing_gat.Store.Table.{get, find, remove, create, update}
use adaptive_api_routing_gat.Store.Memory.{MemoryStore}

abbrev pub id_of_service : Service → Text
id_of_service v = v.id

abbrev pub service_clash : Service → Service → Bool
service_clash exist v = same exist.name v.name

unfoldable pub create_service : Service → MemoryStore → Result MemoryStore
unfolding create
create_service v s = do
  m ← create id_of_service service_clash v s.services
  ok (record s { services = m })

unfoldable pub get_service : Text → MemoryStore → Result Service
unfolding get
get_service id s = get id s.services

unfoldable pub get_service_by_name : Text → MemoryStore → Result Service
unfolding find
get_service_by_name name s = find (λ v. same v.name name) s.services

unfoldable pub list_services : MemoryStore → List Service
list_services s = values s.services

unfoldable pub update_service : Service → MemoryStore → Result MemoryStore
unfolding update
update_service v s = do
  m ← update id_of_service service_clash v s.services
  ok (record s { services = m })

-- A write through the pointer that the store holds under `id`.
unfoldable pub assign_service : Text → Service → MemoryStore → MemoryStore
assign_service id v s = record s { services = insert id v s.services }

unfoldable pub delete_service : Text → MemoryStore → Result MemoryStore
unfolding remove
delete_service id s = do m ← remove id s.services; ok (record s { services = m })

abbrev pub id_of_route : Route → Text
id_of_route v = v.id

abbrev pub route_clash : Route → Route → Bool
route_clash exist v = same exist.path v.path && same exist.method v.method

unfoldable pub create_route : Route → MemoryStore → Result MemoryStore
unfolding create
create_route v s = do m ← create id_of_route route_clash v s.routes; ok (record s { routes = m })

unfoldable pub get_route : Text → MemoryStore → Result Route
unfolding get
get_route id s = get id s.routes

unfoldable pub list_routes : MemoryStore → List Route
list_routes s = values s.routes

unfoldable pub update_route : Route → MemoryStore → Result MemoryStore
unfolding update
update_route v s = do m ← update id_of_route route_clash v s.routes; ok (record s { routes = m })

-- A write through the pointer that the store holds under `id`.
unfoldable pub assign_route : Text → Route → MemoryStore → MemoryStore
assign_route id v s = record s { routes = insert id v s.routes }

unfoldable pub delete_route : Text → MemoryStore → Result MemoryStore
unfolding remove
delete_route id s = do m ← remove id s.routes; ok (record s { routes = m })

abbrev pub id_of_app : App → Text
id_of_app v = v.id

abbrev pub app_clash : App → App → Bool
app_clash exist v = same exist.name v.name

unfoldable pub create_app : App → MemoryStore → Result MemoryStore
unfolding create
create_app v s = do m ← create id_of_app app_clash v s.apps; ok (record s { apps = m })

unfoldable pub get_app : Text → MemoryStore → Result App
unfolding get
get_app id s = get id s.apps

unfoldable pub get_app_by_name : Text → MemoryStore → Result App
unfolding find
get_app_by_name name s = find (λ v. same v.name name) s.apps

unfoldable pub list_apps : MemoryStore → List App
list_apps s = values s.apps

unfoldable pub update_app : App → MemoryStore → Result MemoryStore
unfolding update
update_app v s = do m ← update id_of_app app_clash v s.apps; ok (record s { apps = m })

-- A write through the pointer that the store holds under `id`.
unfoldable pub assign_app : Text → App → MemoryStore → MemoryStore
assign_app id v s = record s { apps = insert id v s.apps }

unfoldable pub delete_app : Text → MemoryStore → Result MemoryStore
unfolding remove
delete_app id s = do m ← remove id s.apps; ok (record s { apps = m })

abbrev pub id_of_api_key : ApiKey → Text
id_of_api_key v = v.id

abbrev pub api_key_clash : ApiKey → ApiKey → Bool
api_key_clash exist v = same exist.key v.key

unfoldable pub create_api_key : ApiKey → MemoryStore → Result MemoryStore
unfolding create
create_api_key v s = do
  m ← create id_of_api_key api_key_clash v s.api_keys
  ok (record s { api_keys = m })

unfoldable pub get_api_key : Text → MemoryStore → Result ApiKey
unfolding get
get_api_key id s = get id s.api_keys

unfoldable pub get_api_key_by_key : Text → MemoryStore → Result ApiKey
unfolding find
get_api_key_by_key key s = find (λ v. same v.key key) s.api_keys

unfoldable pub list_api_keys : MemoryStore → List ApiKey
list_api_keys s = values s.api_keys

unfoldable pub update_api_key : ApiKey → MemoryStore → Result MemoryStore
unfolding update
update_api_key v s = do
  m ← update id_of_api_key api_key_clash v s.api_keys
  ok (record s { api_keys = m })

-- A write through the pointer that the store holds under `id`.
unfoldable pub assign_api_key : Text → ApiKey → MemoryStore → MemoryStore
assign_api_key id v s = record s { api_keys = insert id v s.api_keys }

unfoldable pub delete_api_key : Text → MemoryStore → Result MemoryStore
unfolding remove
delete_api_key id s = do m ← remove id s.api_keys; ok (record s { api_keys = m })

abbrev pub id_of_rate_limit_rule : RateLimitRule → Text
id_of_rate_limit_rule v = v.id

abbrev pub rate_limit_rule_clash : RateLimitRule → RateLimitRule → Bool
rate_limit_rule_clash exist v = same exist.name v.name

unfoldable pub create_rate_limit_rule : RateLimitRule → MemoryStore → Result MemoryStore
unfolding create
create_rate_limit_rule v s = do
  m ← create id_of_rate_limit_rule rate_limit_rule_clash v s.rate_limit_rules
  ok (record s { rate_limit_rules = m })

unfoldable pub get_rate_limit_rule : Text → MemoryStore → Result RateLimitRule
unfolding get
get_rate_limit_rule id s = get id s.rate_limit_rules

unfoldable pub list_rate_limit_rules : MemoryStore → List RateLimitRule
list_rate_limit_rules s = values s.rate_limit_rules

unfoldable pub update_rate_limit_rule : RateLimitRule → MemoryStore → Result MemoryStore
unfolding update
update_rate_limit_rule v s = do
  m ← update id_of_rate_limit_rule rate_limit_rule_clash v s.rate_limit_rules
  ok (record s { rate_limit_rules = m })

-- A write through the pointer that the store holds under `id`.
unfoldable pub assign_rate_limit_rule : Text → RateLimitRule → MemoryStore → MemoryStore
assign_rate_limit_rule id v s = record s { rate_limit_rules = insert id v s.rate_limit_rules }

unfoldable pub delete_rate_limit_rule : Text → MemoryStore → Result MemoryStore
unfolding remove
delete_rate_limit_rule id s = do
  m ← remove id s.rate_limit_rules
  ok (record s { rate_limit_rules = m })
