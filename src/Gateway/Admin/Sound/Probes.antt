-- ===== src/Gateway/Admin/Sound/Probes.antt =====
-- A probe and an import keep the store sound.
use adaptive_api_routing_gat.Base.{
  ℕ, Bool, ◌≡◌, refl, Result-cases, inl, inr, Text, insert, List, [], ◌∷◌, arith,
}
use adaptive_api_routing_gat.Base.Time.{Time}
use adaptive_api_routing_gat.Model.Services.{Service}
use adaptive_api_routing_gat.Model.Rules.{RateLimitRule}
use adaptive_api_routing_gat.Model.HealthChecks.{HealthCheck, record_probe}
use adaptive_api_routing_gat.Store.Memory.{MemoryStore}
use adaptive_api_routing_gat.Store.Entities
use adaptive_api_routing_gat.Store.Health
use adaptive_api_routing_gat.Store.Sound.{insert-IsKeyed, IsSound, id_of_health_check}
use adaptive_api_routing_gat.Gateway.Admin.Services.{create_service}
use adaptive_api_routing_gat.Gateway.Admin.Rules.{create_rate_limit_rule}
use adaptive_api_routing_gat.Gateway.Admin.Health.{
  Network, ping, unchecked, health_check_for, probe_service, check_service,
}
use adaptive_api_routing_gat.Gateway.Admin.Sound.{
  create_service-IsSound, create_rate_limit_rule-IsSound,
}
use adaptive_api_routing_gat.Gateway.Transfer.{import_services, import_rate_limit_rules}

probed-id : (now : Time) (b : Bool) (n : ℕ) (h : HealthCheck) → (record_probe now b n h).id ≡ h.id
unfolding record_probe
probed-id now b n h = ground arith

health_check_for-IsSound :
    (fresh_id service_id : Text) (s : MemoryStore)
    → IsSound s
    → IsSound (health_check_for fresh_id service_id s).0
unfolding health_check_for Health.create_health_check
health_check_for-IsSound fresh_id service_id s h =
    let made = unchecked fresh_id service_id in
    ground (arith, insert-IsKeyed id_of_health_check fresh_id made s.health_checks)

-- The health check that a probe changes, written twice: through the pointer and by the store.
assign_probed-IsSound :
    (k : Text) (x : HealthCheck) (s : MemoryStore)
    → x.id ≡ k
    → IsSound s
    → IsSound (record s { health_checks = insert k x s.health_checks })
assign_probed-IsSound k x s own h =
    ground (arith, insert-IsKeyed id_of_health_check k x s.health_checks)

module _ (network : Network) where
  pub probe_service-IsSound :
      (fresh_id : Text) (now : Time) (service_id : Text) (s : MemoryStore)
      → IsSound s
      → IsSound (probe_service network fresh_id now service_id s).0
  unfolding probe_service Health.assign_health_check Health.update_health_check
  probe_service-IsSound fresh_id now service_id s h =
      let found = health_check_for-IsSound fresh_id service_id s h in
      elim (Result-cases (Entities.get_service service_id s)) [
        | inr (_, e) ↦ ground arith
        | inl (v, e) ↦ elim (Result-cases (health_check_for fresh_id service_id s).1) [
          | inr (_, e') ↦ ground arith
          | inl (c, e') ↦
              let s' = (health_check_for fresh_id service_id s).0 in
              let answer = ping network v.base_url v.timeout in
              let x = record_probe now answer.0 answer.1 c in
              let once =
                assign_probed-IsSound c.id x s' (probed-id now answer.0 answer.1 c) found in
              let twice =
                assign_probed-IsSound x.id x
                  (record s' { health_checks = insert c.id x s'.health_checks }) refl once in
              ground arith
        ]
      ]

  pub check_service-IsSound :
      (fresh_id : Text) (now : Time) (v : Service) (s : MemoryStore)
      → IsSound s
      → IsSound (check_service network fresh_id now v s)
  unfolding check_service
  check_service-IsSound fresh_id now v s h =
      ground (arith, probe_service-IsSound fresh_id now v.id s h)

pub import_services-IsSound :
    (vs : List (Text × Text × Time × Service)) (s : MemoryStore)
    → IsSound s
    → IsSound (import_services vs s).0
unfolding import_services
import_services-IsSound [] s h = h
import_services-IsSound ((id, health_id, now, v) ∷ vs) s h =
    let (s', result) = create_service id health_id now v s in
    let rest = import_services-IsSound vs s' (create_service-IsSound s h id health_id now v) in
    ground arith

pub import_rate_limit_rules-IsSound :
    (rs : List (Text × Time × RateLimitRule)) (s : MemoryStore)
    → IsSound s
    → IsSound (import_rate_limit_rules rs s).0
unfolding import_rate_limit_rules
import_rate_limit_rules-IsSound [] s h = h
import_rate_limit_rules-IsSound ((id, now, r) ∷ rs) s h =
    let (s', result) = create_rate_limit_rule id now r s in
    let rest =
      import_rate_limit_rules-IsSound rs s' (create_rate_limit_rule-IsSound s h id now r) in
    ground arith
