-- ===== src/Store/Unique/Writes.antt =====
-- Every sequence of writes keeps the tables free of clashes.
use adaptive_api_routing_gat.Base.{
  ◌≡◌, refl, Option-cases, lookup, ok-injective, err-ne-ok, List, [], ◌∷◌, ok, Result-cases, inl,
  inr,
}
use adaptive_api_routing_gat.Store.Sound.{
  empty-IsKeyed, insert-IsKeyed, id_of_request_log, id_of_health_check,
}
use adaptive_api_routing_gat.Store.Memory.{MemoryStore, new_memory_store}
use adaptive_api_routing_gat.Store.Table.Laws.{
  empty-IsTable, create-IsTable, update-IsTable, remove-IsTable_of_ok,
}
use adaptive_api_routing_gat.Store.Entities.{
  id_of_service, service_clash, create_service, update_service, delete_service, id_of_route,
  route_clash, create_route, update_route, delete_route, id_of_app, app_clash, create_app,
  update_app, delete_app, id_of_api_key, api_key_clash, create_api_key, update_api_key,
  delete_api_key, id_of_rate_limit_rule, rate_limit_rule_clash, create_rate_limit_rule,
  update_rate_limit_rule, delete_rate_limit_rule,
}
use adaptive_api_routing_gat.Store.Health.{
  create_health_check, update_health_check, create_request_log,
}
use adaptive_api_routing_gat.Store.Unique.{
  Write, new_service, set_service, drop_service, new_route, set_route, drop_route, new_app, set_app,
  drop_app, new_api_key, set_api_key, drop_api_key, new_rate_limit_rule, set_rate_limit_rule,
  drop_rate_limit_rule, new_health_check, set_health_check, new_request_log, write, run,
  IsConsistent,
}
use adaptive_api_routing_gat.Store.Unique.Fields.{
  service_clash_symm, route_clash_symm, app_clash_symm, api_key_clash_symm,
  rate_limit_rule_clash_symm, keep_services, keep_routes, keep_apps, keep_api_keys,
  keep_rate_limit_rules, keep_request_logs, keep_health_checks,
}

new_memory_store-IsConsistent : IsConsistent new_memory_store
new_memory_store-IsConsistent = record {
  services = empty-IsTable id_of_service service_clash;
  routes = empty-IsTable id_of_route route_clash;
  apps = empty-IsTable id_of_app app_clash;
  api_keys = empty-IsTable id_of_api_key api_key_clash;
  rate_limit_rules = empty-IsTable id_of_rate_limit_rule rate_limit_rule_clash;
  request_logs = empty-IsKeyed id_of_request_log;
  health_checks = empty-IsKeyed id_of_health_check;
}

write-IsConsistent :
    (w : Write) (s : MemoryStore) {s' : MemoryStore}
    → write w s ≡ ok s'
    → IsConsistent s
    → IsConsistent s'
unfolding write create_service update_service delete_service create_route update_route delete_route
    create_app update_app delete_app create_api_key update_api_key delete_api_key
    create_rate_limit_rule update_rate_limit_rule delete_rate_limit_rule create_health_check
    update_health_check create_request_log
write-IsConsistent (new_service v) s e c =
    keep_services _ s e
      (λ m q.
        create-IsTable id_of_service service_clash service_clash_symm v s.services q c.services)
      c
write-IsConsistent (set_service v) s e c =
    keep_services _ s e
      (λ m q.
        update-IsTable id_of_service service_clash service_clash_symm v s.services q c.services)
      c
write-IsConsistent (drop_service id) s e c =
    keep_services _ s e
      (λ m q. remove-IsTable_of_ok id_of_service service_clash id s.services q c.services) c
write-IsConsistent (new_route v) s e c =
    keep_routes _ s e
      (λ m q. create-IsTable id_of_route route_clash route_clash_symm v s.routes q c.routes) c
write-IsConsistent (set_route v) s e c =
    keep_routes _ s e
      (λ m q. update-IsTable id_of_route route_clash route_clash_symm v s.routes q c.routes) c
write-IsConsistent (drop_route id) s e c =
    keep_routes _ s e (λ m q. remove-IsTable_of_ok id_of_route route_clash id s.routes q c.routes) c
write-IsConsistent (new_app v) s e c =
    keep_apps _ s e (λ m q. create-IsTable id_of_app app_clash app_clash_symm v s.apps q c.apps) c
write-IsConsistent (set_app v) s e c =
    keep_apps _ s e (λ m q. update-IsTable id_of_app app_clash app_clash_symm v s.apps q c.apps) c
write-IsConsistent (drop_app id) s e c =
    keep_apps _ s e (λ m q. remove-IsTable_of_ok id_of_app app_clash id s.apps q c.apps) c
write-IsConsistent (new_api_key v) s e c =
    keep_api_keys _ s e
      (λ m q.
        create-IsTable id_of_api_key api_key_clash api_key_clash_symm v s.api_keys q c.api_keys)
      c
write-IsConsistent (set_api_key v) s e c =
    keep_api_keys _ s e
      (λ m q.
        update-IsTable id_of_api_key api_key_clash api_key_clash_symm v s.api_keys q c.api_keys)
      c
write-IsConsistent (drop_api_key id) s e c =
    keep_api_keys _ s e
      (λ m q. remove-IsTable_of_ok id_of_api_key api_key_clash id s.api_keys q c.api_keys) c
write-IsConsistent (new_rate_limit_rule v) s e c =
    keep_rate_limit_rules _ s e
      (λ m q.
        create-IsTable id_of_rate_limit_rule rate_limit_rule_clash rate_limit_rule_clash_symm v
          s.rate_limit_rules q c.rate_limit_rules)
      c
write-IsConsistent (set_rate_limit_rule v) s e c =
    keep_rate_limit_rules _ s e
      (λ m q.
        update-IsTable id_of_rate_limit_rule rate_limit_rule_clash rate_limit_rule_clash_symm v
          s.rate_limit_rules q c.rate_limit_rules)
      c
write-IsConsistent (drop_rate_limit_rule id) s e c =
    keep_rate_limit_rules _ s e
      (λ m q.
        remove-IsTable_of_ok id_of_rate_limit_rule rate_limit_rule_clash id s.rate_limit_rules q
          c.rate_limit_rules)
      c
write-IsConsistent (new_health_check h) s e c =
    let made =
      keep_health_checks _ s
        (insert-IsKeyed id_of_health_check h.id h s.health_checks refl c.health_checks) c in
    rw (← ok-injective e) made
write-IsConsistent (set_health_check h) s e c = elim (Option-cases (lookup h.id s.health_checks)) [
  | inl missing ↦ absurd (err-ne-ok (rw (missing, update_health_check) at e))
  | inr (_, found) ↦
      let made =
        keep_health_checks _ s
          (insert-IsKeyed id_of_health_check h.id h s.health_checks refl c.health_checks) c in
      rw (← ok-injective (rw (found, update_health_check) at e)) made
]
write-IsConsistent (new_request_log l) s e c =
    let made =
      keep_request_logs _ s
        (insert-IsKeyed id_of_request_log l.id l s.request_logs refl c.request_logs) c in
    rw (← ok-injective e) made

pub run-IsConsistent :
    (ws : List Write) (s : MemoryStore) → IsConsistent s → IsConsistent (run ws s)
unfolding run
run-IsConsistent [] s c = c
run-IsConsistent (w ∷ ws) s c = elim (Result-cases (write w s)) [
  | inl (s', e) ↦ rw e (run-IsConsistent ws s' (write-IsConsistent w s e c))
  | inr (_, e) ↦ rw e (run-IsConsistent ws s c)
]

-- Starting from a new store, after any sequence of creations, updates and deletions through the
-- store's methods, refused ones included, every entity of the seven tables stands under its own ID,
-- and no two services, apps or rules have the same name, no two keys the same key text, and no two
-- routes the same path and method. Writes through the pointers that the store hands out are not
-- among them.
pub run-new_memory_store-IsConsistent : (ws : List Write) → IsConsistent (run ws new_memory_store)
run-new_memory_store-IsConsistent ws =
    run-IsConsistent ws new_memory_store new_memory_store-IsConsistent
