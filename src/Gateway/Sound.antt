-- ===== src/Gateway/Sound.antt =====
-- What holds of the service's state at any time: the store is sound, and so is every breaker and
-- every bucket in the caches.
use adaptive_api_routing_gat.Base.{
  ◌*◌, Text, Bool, Bool-cases, Option-cases, Result-cases, inl, inr, [], lookup, insert, Everywhere,
  insert-Everywhere, arith,
}
use adaptive_api_routing_gat.Base.Int.{pos}
use adaptive_api_routing_gat.Base.Time.{Time, second}
use adaptive_api_routing_gat.Base.Float.{Float, IsFloat}
use adaptive_api_routing_gat.CircuitBreaker
use adaptive_api_routing_gat.CircuitBreaker.{CircuitBreaker, record_success, record_failure}
use adaptive_api_routing_gat.CircuitBreaker.Invariant.{
  new-IsValid, allow-IsValid, record_success-IsValid, record_failure-IsValid,
}
use adaptive_api_routing_gat.CircuitBreaker.Invariant as Breaker
use adaptive_api_routing_gat.RateLimit
use adaptive_api_routing_gat.RateLimit.{TokenBucket, new_token_bucket, refill}
use adaptive_api_routing_gat.RateLimit.Bounds.{
  new_token_bucket-IsValid, refill-IsValid, take_token-IsValid,
}
use adaptive_api_routing_gat.RateLimit.Bounds as Bucket
use adaptive_api_routing_gat.Model.Routes.{Route}
use adaptive_api_routing_gat.Model.Rules.{RateLimitRule, rate_per_second}
use adaptive_api_routing_gat.Store.Memory.{MemoryStore}
use adaptive_api_routing_gat.Store.Entities.{get_rate_limit_rule}
use adaptive_api_routing_gat.Store.Sound as Stored
use adaptive_api_routing_gat.Gateway.{
  Gateway, breaker_for, allow_service, record_service_result, bucket_for, allow_request,
}

-- The store is sound, each breaker has a positive threshold and timeout and, while it is closed,
-- fewer failures than the threshold, and each bucket has a positive rate and between 0 and `burst`
-- tokens.
pub record IsSound {R : Type 0} ⦃f : Float R⦄ (g : Gateway R) : Type 0 where
  pub store : Stored.IsSound g.store
  pub breakers : Everywhere (λ _ b. Breaker.IsValid b) g.breakers
  pub buckets : Everywhere (λ _ b. Bucket.IsValid b) g.buckets

first_breaker-IsValid : Breaker.IsValid (CircuitBreaker.new (pos 5) (pos (30 * second)))
first_breaker-IsValid = new-IsValid (pos 5) (pos (30 * second)) (omega arith) (omega arith)

module _ {R : Type 0} ⦃f : Float R⦄ where
  pub with_store-IsSound :
      (s : MemoryStore) (g : Gateway R)
      → Stored.IsSound s
      → IsSound g
      → IsSound (record g { store = s })
  with_store-IsSound s g h sound = ground arith

  pub without_buckets-IsSound : (g : Gateway R) → IsSound g → IsSound (record g { buckets = [] })
  unfolding lookup
  without_buckets-IsSound g sound = ground arith

  write_breaker-IsSound :
      (id : Text) (b : CircuitBreaker) (g : Gateway R)
      → Breaker.IsValid b
      → IsSound g
      → IsSound (record g { breakers = insert id b g.breakers })
  write_breaker-IsSound id b g valid sound =
      let all : Everywhere (λ _ c. Breaker.IsValid c) (insert id b g.breakers) =
        insert-Everywhere id b g.breakers valid sound.breakers in
      ground arith

  write_bucket-IsSound :
      (id : Text) (b : TokenBucket R) (g : Gateway R)
      → Bucket.IsValid b
      → IsSound g
      → IsSound (record g { buckets = insert id b g.buckets })
  write_bucket-IsSound id b g valid sound =
      let all : Everywhere (λ _ c. Bucket.IsValid c) (insert id b g.buckets) =
        insert-Everywhere id b g.buckets valid sound.buckets in
      ground arith

  breaker_for-IsSound :
      (id : Text) (g : Gateway R)
      → IsSound g
      → IsSound (breaker_for id g).0 × Breaker.IsValid (breaker_for id g).1
  unfolding breaker_for
  breaker_for-IsSound id g sound = elim (Option-cases (lookup id g.breakers)) [
    | inl fresh ↦
        let b = CircuitBreaker.new (pos 5) (pos (30 * second)) in
        let made = write_breaker-IsSound id b g first_breaker-IsValid sound in
        rw (fresh, breaker_for) (made, first_breaker-IsValid)
    | inr (b, found) ↦ rw (found, breaker_for) (sound, sound.breakers id b found)
  ]

  pub allow_service-IsSound :
      (id : Text) (now : Time) (g : Gateway R) → IsSound g → IsSound (allow_service id now g).0
  unfolding allow_service
  allow_service-IsSound id now g sound =
      let (g', b) = breaker_for id g in
      let (sound', valid) = breaker_for-IsSound id g sound in
      write_breaker-IsSound id (CircuitBreaker.allow now b).0 g' (allow-IsValid now b valid) sound'

  pub record_service_result-IsSound :
      (id : Text) (success : Bool) (now : Time) (g : Gateway R)
      → IsSound g
      → IsSound (record_service_result id success now g)
  unfolding record_service_result
  record_service_result-IsSound id success now g sound =
      let (g', b) = breaker_for id g in
      let (sound', valid) = breaker_for-IsSound id g sound in
      elim (Bool-cases success) [
        | inl well ↦
            rw well (
              write_breaker-IsSound id (record_success b) g' (record_success-IsValid b valid)
                sound')
        | inr badly ↦ rw badly (
            write_breaker-IsSound id (record_failure now b) g' (record_failure-IsValid now b valid)
              sound')
      ]

  module _ (laws : IsFloat R) where
    bucket_for-IsSound :
        (rule : RateLimitRule) (now : Time) (g : Gateway R)
        → IsSound g
        → IsSound (bucket_for rule now g).0 × Bucket.IsValid (bucket_for rule now g).1
    unfolding bucket_for
    bucket_for-IsSound rule now g sound = elim (Option-cases (lookup rule.id g.buckets)) [
      | inl fresh ↦
          let b = new_token_bucket (rate_per_second rule) rule.limit now in
          let valid = new_token_bucket-IsValid laws (rate_per_second rule) rule.limit now in
          rw (fresh, bucket_for) (write_bucket-IsSound rule.id b g valid sound, valid)
      | inr (b, found) ↦ rw (found, bucket_for) (sound, sound.buckets rule.id b found)
    ]

    pub allow_request-IsSound :
        (route : Route) (now : Time) (g : Gateway R)
        → IsSound g
        → IsSound (allow_request route now g).0
    unfolding allow_request RateLimit.allow
    allow_request-IsSound route now g sound =
        elim (Result-cases (get_rate_limit_rule route.rate_limit_rule_id g.store)) [
          | inr (_, missing) ↦ ground arith
          | inl (rule, found) ↦
              let (g', b) = bucket_for rule now g in
              let (sound', valid) = bucket_for-IsSound rule now g sound in
              let taken =
                take_token-IsValid laws (refill now b) (refill-IsValid laws now b valid) in
              let drawn = write_bucket-IsSound rule.id (RateLimit.allow now b).0 g' taken sound' in
              ground arith
        ]
