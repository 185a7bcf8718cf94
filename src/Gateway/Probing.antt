-- ===== src/Gateway/Probing.antt =====
-- The breaker of one service in the cache, while a probe may be in flight.
use adaptive_api_routing_gat.Base.{
  ℕ, ◌+◌, ◌≤◌, ◌≡◌, refl, ◌∙◌, some, Option-cases, Bool, false, inl, inr, ◌⊎◌, arith, if◌then◌else◌,
  Text, same, lookup, lookup-insert, lookup-insert_self,
}
use adaptive_api_routing_gat.Base.Float.{Float}
use adaptive_api_routing_gat.Base.Time.{Time}
use adaptive_api_routing_gat.CircuitBreaker
use adaptive_api_routing_gat.CircuitBreaker.{CircuitBreaker, open_state, half_open}
use adaptive_api_routing_gat.CircuitBreaker.Cooldown.{allow-open_cases, allow-half_open}
use adaptive_api_routing_gat.Model.Routes.{Route}
use adaptive_api_routing_gat.Gateway.{
  Gateway, breaker_for, allow_service, record_service_result, allow_request, bucket_for,
}

module _ {R : Type 0} where
  -- The breaker of a service is open with nothing in flight, or half open with one request at most.
  pub record IsProbing (id : Text) (n : ℕ) (g : Gateway R) : Type 0 where
    pub breaker : CircuitBreaker
    pub found : lookup id g.breakers ≡ some breaker
    pub few : ((breaker.state ≡ open_state) × (n ≤ 0)) ⊎ ((breaker.state ≡ half_open) × (n ≤ 1))

  pub IsProbing-le :
      (id : Text) (k n : ℕ) (g : Gateway R) → k ≤ n → IsProbing id n g → IsProbing id k g
  IsProbing-le id k n g less h = record {
    breaker = h.breaker;
    found = h.found;
    few = elim h.few [
      | inl (state, none_left) ↦ inl (state, omega arith)
      | inr (state, one_left) ↦ inr (state, omega arith)
    ];
  }

  pub IsProbing-lookup :
      (id : Text) (n : ℕ) (g g' : Gateway R)
      → lookup id g'.breakers ≡ lookup id g.breakers
      → IsProbing id n g
      → IsProbing id n g'
  IsProbing-lookup id n g g' same_entry h = record {
    breaker = h.breaker;
    found = same_entry ∙ h.found;
    few = h.few;
  }

module _ {R : Type 0} ⦃f : Float R⦄ where
  -- What `AllowService` answers and stores is what the breaker of the service does.
  pub allow_service-allow :
      (id : Text) (now : Time) (g : Gateway R) (b : CircuitBreaker)
      → lookup id g.breakers ≡ some b
      → ((allow_service id now g).1 ≡ (CircuitBreaker.allow now b).1)
        × (lookup id (allow_service id now g).0.breakers ≡ some (CircuitBreaker.allow now b).0)
  unfolding allow_service
  allow_service-allow id now g b e = (
    ground arith,
    ground (arith, lookup-insert_self id (CircuitBreaker.allow now b).0 g.breakers),
  )

  breaker_for-lookup :
      (other id : Text) (g : Gateway R)
      → same other id ≡ false
      → lookup id (breaker_for other g).0.breakers ≡ lookup id g.breakers
  unfolding breaker_for
  breaker_for-lookup other id g differ = elim (Option-cases (lookup other g.breakers)) [
    | inl fresh ↦ rw (fresh, breaker_for) (lookup-insert other id _ g.breakers ∙ rw differ)
    | inr (b, found) ↦ rw (found, breaker_for) refl
  ]

  pub allow_service-lookup :
      (other id : Text) (now : Time) (g : Gateway R)
      → same other id ≡ false
      → lookup id (allow_service other now g).0.breakers ≡ lookup id g.breakers
  unfolding allow_service
  allow_service-lookup other id now g differ =
      lookup-insert other id _ (breaker_for other g).0.breakers
      ∙ rw (differ, breaker_for-lookup other id g differ)

  pub record_service_result-lookup :
      (other id : Text) (success : Bool) (now : Time) (g : Gateway R)
      → same other id ≡ false
      → lookup id (record_service_result other success now g).breakers ≡ lookup id g.breakers
  unfolding record_service_result
  record_service_result-lookup other id success now g differ =
      lookup-insert other id _ (breaker_for other g).0.breakers
      ∙ rw (differ, breaker_for-lookup other id g differ)

  pub allow_request-breakers :
      (route : Route) (now : Time) (g : Gateway R)
      → (allow_request route now g).0.breakers ≡ g.breakers
  unfolding allow_request bucket_for
  allow_request-breakers route now g = ground arith

  -- A call of the breaker, with nothing in flight if it is open.
  pub allow_service-IsProbing :
      (id : Text) (now : Time) (k : ℕ) (g : Gateway R)
      → IsProbing id k g
      → IsProbing id ((if (allow_service id now g).1 then 1 else 0) + k) (allow_service id now g).0
  allow_service-IsProbing id now k g h =
      let (answer, stored) = allow_service-allow id now g h.breaker h.found in
      record {
        breaker = (CircuitBreaker.allow now h.breaker).0;
        found = stored;
        few = elim h.few [
          | inl (state, none_left) ↦ elim (allow-open_cases now h.breaker state) [
            | inl (still, refused) ↦ inl (still, rw (answer, refused) (omega arith))
            | inr (probe, granting) ↦ inr (probe, rw (answer, granting) (omega arith))
          ]
          | inr (state, one_left) ↦ inr (
            rw (allow-half_open now h.breaker state) state,
            rw (answer, allow-half_open now h.breaker state) (omega arith),
          )
        ];
      }
