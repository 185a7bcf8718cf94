-- ===== src/Store/Sound.antt =====
-- What holds of the store after any management operation, the updates through the pointers that
-- it hands out included.
use adaptive_api_routing_gat.Base.{
  ◌≡◌, true, ◌||◌, Text, same, Map, lookup, insert, delete, [], Distinct, insert-Distinct,
  delete-Distinct, Everywhere, insert-Everywhere, delete-Everywhere, arith,
}
use adaptive_api_routing_gat.Model.ApiKeys.{ApiKey, api_key_active, api_key_disabled}
use adaptive_api_routing_gat.Model.Logs.{RequestLog}
use adaptive_api_routing_gat.Model.HealthChecks.{HealthCheck}
use adaptive_api_routing_gat.Store.Memory.{MemoryStore, new_memory_store}
use adaptive_api_routing_gat.Store.Table.Laws.{IsTable, empty-IsTable}
use adaptive_api_routing_gat.Store.Entities.{
  id_of_service, id_of_route, id_of_app, id_of_api_key, api_key_clash, id_of_rate_limit_rule,
}

-- Entities are stored under their own IDs, each once.
pub record IsKeyed {V : Type 0} (id_of : V → Text) (m : Map V) : Type 0 where
  pub keyed : Everywhere (λ k v. id_of v ≡ k) m
  pub distinct : Distinct m

module _ {V : Type 0} (id_of : V → Text) where
  pub empty-IsKeyed : IsKeyed id_of []
  unfolding lookup
  empty-IsKeyed = record { keyed = λ k v e. ground arith; distinct = tt }

  pub insert-IsKeyed :
      (k : Text) (v : V) (m : Map V) → id_of v ≡ k → IsKeyed id_of m → IsKeyed id_of (insert k v m)
  insert-IsKeyed k v m own h = record {
    keyed = insert-Everywhere k v m own h.keyed;
    distinct = insert-Distinct k v m h.distinct;
  }

  pub delete-IsKeyed : (k : Text) (m : Map V) → IsKeyed id_of m → IsKeyed id_of (delete k m)
  delete-IsKeyed k m h = record {
    keyed = delete-Everywhere k m h.keyed;
    distinct = delete-Distinct k m h.distinct;
  }

abbrev pub id_of_request_log : RequestLog → Text
id_of_request_log l = l.id

abbrev pub id_of_health_check : HealthCheck → Text
id_of_health_check h = h.id

-- A key is active or disabled.
abbrev pub IsKnown : ApiKey → Type 0
IsKnown k = (same k.status api_key_active || same k.status api_key_disabled) ≡ true

-- Entities are stored under their own IDs, each once; no two API keys have the same text, and each
-- is active or disabled.
pub record IsSound (s : MemoryStore) : Type 0 where
  pub services : IsKeyed id_of_service s.services
  pub routes : IsKeyed id_of_route s.routes
  pub apps : IsKeyed id_of_app s.apps
  pub api_keys : IsTable id_of_api_key api_key_clash s.api_keys
  pub known : Everywhere (λ _ k. IsKnown k) s.api_keys
  pub rate_limit_rules : IsKeyed id_of_rate_limit_rule s.rate_limit_rules
  pub request_logs : IsKeyed id_of_request_log s.request_logs
  pub health_checks : IsKeyed id_of_health_check s.health_checks

pub new_memory_store-IsSound : IsSound new_memory_store
unfolding lookup
new_memory_store-IsSound = record {
  services = empty-IsKeyed id_of_service;
  routes = empty-IsKeyed id_of_route;
  apps = empty-IsKeyed id_of_app;
  api_keys = empty-IsTable id_of_api_key api_key_clash;
  known = λ k v e. ground arith;
  rate_limit_rules = empty-IsKeyed id_of_rate_limit_rule;
  request_logs = empty-IsKeyed id_of_request_log;
  health_checks = empty-IsKeyed id_of_health_check;
}
