-- ===== src/Store/Unique/Fields.antt =====
-- Which fields of the store a write changes, and that clashes are symmetric.
use adaptive_api_routing_gat.Base.{
  ◌≡◌, refl, true, Text, same, same_iff, Map, Result, ok, err, ok-injective, ◌>>=◌, arith,
}
use adaptive_api_routing_gat.Model.Services.{Service}
use adaptive_api_routing_gat.Model.Routes.{Route}
use adaptive_api_routing_gat.Model.Apps.{App}
use adaptive_api_routing_gat.Model.ApiKeys.{ApiKey}
use adaptive_api_routing_gat.Model.Rules.{RateLimitRule}
use adaptive_api_routing_gat.Model.Logs.{RequestLog}
use adaptive_api_routing_gat.Model.HealthChecks.{HealthCheck}
use adaptive_api_routing_gat.Store.Memory.{MemoryStore}
use adaptive_api_routing_gat.Store.Sound.{IsKeyed, id_of_request_log, id_of_health_check}
use adaptive_api_routing_gat.Store.Table.Laws.{IsTable}
use adaptive_api_routing_gat.Store.Entities.{
  id_of_service, service_clash, id_of_route, route_clash, id_of_app, app_clash, id_of_api_key,
  api_key_clash, id_of_rate_limit_rule, rate_limit_rule_clash,
}
use adaptive_api_routing_gat.Store.Unique.{IsConsistent}

pub same_symm : (s t : Text) → same s t ≡ true → same t s ≡ true
same_symm s t h = ground (arith, same_iff s t, same_iff t s)

pub service_clash_symm : (v w : Service) → service_clash v w ≡ true → service_clash w v ≡ true
service_clash_symm v w = same_symm v.name w.name

pub route_clash_symm : (v w : Route) → route_clash v w ≡ true → route_clash w v ≡ true
route_clash_symm v w = λ h. ground (arith, same_symm v.path w.path, same_symm v.method w.method)

pub app_clash_symm : (v w : App) → app_clash v w ≡ true → app_clash w v ≡ true
app_clash_symm v w = same_symm v.name w.name

pub api_key_clash_symm : (v w : ApiKey) → api_key_clash v w ≡ true → api_key_clash w v ≡ true
api_key_clash_symm v w = same_symm v.key w.key

pub rate_limit_rule_clash_symm :
    (v w : RateLimitRule) → rate_limit_rule_clash v w ≡ true → rate_limit_rule_clash w v ≡ true
rate_limit_rule_clash_symm v w = same_symm v.name w.name

pub keep_services :
    (r : Result (Map Service)) (s : MemoryStore) {s' : MemoryStore}
    → (r >>= λ m. ok (record s { services = m })) ≡ ok s'
    → ((m : Map Service) → r ≡ ok m → IsTable id_of_service service_clash m)
    → IsConsistent s
    → IsConsistent s'
keep_services (err _) s e h c = cc
keep_services (ok m) s {s'} e h c =
    let p : record s { services = m } ≡ s' = ok-injective e in
    rw (← p) (record {
      services = h m refl;
      routes = c.routes;
      apps = c.apps;
      api_keys = c.api_keys;
      rate_limit_rules = c.rate_limit_rules;
      request_logs = c.request_logs;
      health_checks = c.health_checks;
    })

pub keep_routes :
    (r : Result (Map Route)) (s : MemoryStore) {s' : MemoryStore}
    → (r >>= λ m. ok (record s { routes = m })) ≡ ok s'
    → ((m : Map Route) → r ≡ ok m → IsTable id_of_route route_clash m)
    → IsConsistent s
    → IsConsistent s'
keep_routes (err _) s e h c = cc
keep_routes (ok m) s {s'} e h c =
    let p : record s { routes = m } ≡ s' = ok-injective e in
    rw (← p) (record {
      services = c.services;
      routes = h m refl;
      apps = c.apps;
      api_keys = c.api_keys;
      rate_limit_rules = c.rate_limit_rules;
      request_logs = c.request_logs;
      health_checks = c.health_checks;
    })

pub keep_apps :
    (r : Result (Map App)) (s : MemoryStore) {s' : MemoryStore}
    → (r >>= λ m. ok (record s { apps = m })) ≡ ok s'
    → ((m : Map App) → r ≡ ok m → IsTable id_of_app app_clash m)
    → IsConsistent s
    → IsConsistent s'
keep_apps (err _) s e h c = cc
keep_apps (ok m) s {s'} e h c =
    let p : record s { apps = m } ≡ s' = ok-injective e in
    rw (← p) (record {
      services = c.services;
      routes = c.routes;
      apps = h m refl;
      api_keys = c.api_keys;
      rate_limit_rules = c.rate_limit_rules;
      request_logs = c.request_logs;
      health_checks = c.health_checks;
    })

pub keep_api_keys :
    (r : Result (Map ApiKey)) (s : MemoryStore) {s' : MemoryStore}
    → (r >>= λ m. ok (record s { api_keys = m })) ≡ ok s'
    → ((m : Map ApiKey) → r ≡ ok m → IsTable id_of_api_key api_key_clash m)
    → IsConsistent s
    → IsConsistent s'
keep_api_keys (err _) s e h c = cc
keep_api_keys (ok m) s {s'} e h c =
    let p : record s { api_keys = m } ≡ s' = ok-injective e in
    rw (← p) (record {
      services = c.services;
      routes = c.routes;
      apps = c.apps;
      api_keys = h m refl;
      rate_limit_rules = c.rate_limit_rules;
      request_logs = c.request_logs;
      health_checks = c.health_checks;
    })

pub keep_rate_limit_rules :
    (r : Result (Map RateLimitRule)) (s : MemoryStore) {s' : MemoryStore}
    → (r >>= λ m. ok (record s { rate_limit_rules = m })) ≡ ok s'
    → ((m : Map RateLimitRule) → r ≡ ok m → IsTable id_of_rate_limit_rule rate_limit_rule_clash m)
    → IsConsistent s
    → IsConsistent s'
keep_rate_limit_rules (err _) s e h c = cc
keep_rate_limit_rules (ok m) s {s'} e h c =
    let p : record s { rate_limit_rules = m } ≡ s' = ok-injective e in
    rw (← p) (record {
      services = c.services;
      routes = c.routes;
      apps = c.apps;
      api_keys = c.api_keys;
      rate_limit_rules = h m refl;
      request_logs = c.request_logs;
      health_checks = c.health_checks;
    })

pub keep_request_logs :
    (m : Map RequestLog) (s : MemoryStore)
    → IsKeyed id_of_request_log m
    → IsConsistent s
    → IsConsistent (record s { request_logs = m })
keep_request_logs m s h c = record {
  services = c.services;
  routes = c.routes;
  apps = c.apps;
  api_keys = c.api_keys;
  rate_limit_rules = c.rate_limit_rules;
  request_logs = h;
  health_checks = c.health_checks;
}

pub keep_health_checks :
    (m : Map HealthCheck) (s : MemoryStore)
    → IsKeyed id_of_health_check m
    → IsConsistent s
    → IsConsistent (record s { health_checks = m })
keep_health_checks m s h c = record {
  services = c.services;
  routes = c.routes;
  apps = c.apps;
  api_keys = c.api_keys;
  rate_limit_rules = c.rate_limit_rules;
  request_logs = c.request_logs;
  health_checks = h;
}
