-- ===== src/Gateway.antt =====
-- internal/service: the business service. This file has its state and the caches of
-- internal/service/service.go; the modules below have its operations. The caches hold pointers to
-- buckets and breakers, so what a method of one changes is written back under its key. Time and
-- fresh identifiers, which the code draws from the system, are arguments.
pub mod Paging
pub mod Matching
pub mod Auth
pub mod Admin
pub mod Stats
pub mod Transfer
pub mod Sound
pub mod Probing
use adaptive_api_routing_gat.Base.{
  ℕ, ◌*◌, Bool, true, false, none, some, Text, is_empty, Map, lookup, insert, [], Result, ok, err,
  if◌then◌else◌,
}
use adaptive_api_routing_gat.Base.Int.{ℤ, pos}
use adaptive_api_routing_gat.Base.Time.{Time, second}
use adaptive_api_routing_gat.Base.Float.{Float}
use adaptive_api_routing_gat.RateLimit
use adaptive_api_routing_gat.RateLimit.{TokenBucket, new_token_bucket}
use adaptive_api_routing_gat.CircuitBreaker
use adaptive_api_routing_gat.CircuitBreaker.{CircuitBreaker, record_success, record_failure}
use adaptive_api_routing_gat.Model.Routes.{Route}
use adaptive_api_routing_gat.Model.Rules.{RateLimitRule, rate_per_second}
use adaptive_api_routing_gat.Store.Memory.{MemoryStore}
use adaptive_api_routing_gat.Store.Entities.{get_rate_limit_rule}

pub record Gateway (R : Type 0) : Type 0 where
  pub store : MemoryStore
  pub buckets : Map (TokenBucket R)
  pub breakers : Map CircuitBreaker

unfoldable pub new_gateway : {R : Type 0} → MemoryStore → Gateway R
new_gateway s = record { store = s; buckets = []; breakers = [] }

module _ {R : Type 0} where
  -- The breaker of a service, a new one if there is none yet, and the state that holds it.
  unfoldable pub breaker_for : Text → Gateway R → Gateway R × CircuitBreaker
  breaker_for service_id g = elim (lookup service_id g.breakers) [
    | some b ↦ (g, b)
    | none ↦
        let b = CircuitBreaker.new (pos 5) (pos (30 * second)) in
        (record g { breakers = insert service_id b g.breakers }, b)
  ]

  unfoldable pub allow_service : Text → Time → Gateway R → Gateway R × Bool
  unfolding breaker_for
  allow_service service_id now g =
      let (g', b) = breaker_for service_id g in
      let (b', granted) = CircuitBreaker.allow now b in
      (record g' { breakers = insert service_id b' g'.breakers }, granted)

  unfoldable pub record_service_result : Text → Bool → Time → Gateway R → Gateway R
  unfolding breaker_for
  record_service_result service_id success now g =
      let (g', b) = breaker_for service_id g in
      let b' = if success then record_success b else record_failure now b in
      record g' { breakers = insert service_id b' g'.breakers }

  unfoldable pub reset_buckets : Gateway R → Gateway R
  reset_buckets g = record g { buckets = [] }

module _ {R : Type 0} ⦃f : Float R⦄ where
  unfoldable pub bucket_for : RateLimitRule → Time → Gateway R → Gateway R × TokenBucket R
  bucket_for rule now g = elim (lookup rule.id g.buckets) [
    | some b ↦ (g, b)
    | none ↦
        let b = new_token_bucket (rate_per_second rule) rule.limit now in
        (record g { buckets = insert rule.id b g.buckets }, b)
  ]

  -- The bucket is drawn from under the mutex of the service, its token under its own.
  abbrev draw : RateLimitRule → Time → Gateway R → Gateway R × Bool
  draw rule now g =
      let (g', b) = bucket_for rule now g in
      let (b', granted) = RateLimit.allow now b in
      (record g' { buckets = insert rule.id b' g'.buckets }, granted)

  -- `AllowRequest`, of a route that is there.
  unfoldable pub allow_request : Route → Time → Gateway R → Gateway R × Bool
  unfolding bucket_for
  allow_request route now g =
      if is_empty route.rate_limit_rule_id
      then (g, true)
      else elim (get_rate_limit_rule route.rate_limit_rule_id g.store) [
        | err _ ↦ (g, true)
        | ok rule ↦ draw rule now g
      ]
