-- ===== src/Tests/Phases.antt =====
-- Two requests at once.
use adaptive_api_routing_gat.Store.Sound.{
  IsKnown, empty-IsKeyed, insert-IsKeyed, id_of_request_log, id_of_health_check,
}
use adaptive_api_routing_gat.Base.{
  Text, insert-Everywhere, Everywhere, ◌≡◌, refl, ℕ, List, [], ◌∷◌, ◌≤◌, some, codes, same, lookup,
  insert, delete, has_prefix, trim_prefix, len, arith,
}
use adaptive_api_routing_gat.CircuitBreaker.Invariant as Breaker
use adaptive_api_routing_gat.RateLimit.Bounds as Bucket
use adaptive_api_routing_gat.Store.Sound as Stored
use adaptive_api_routing_gat.Store.Entities.{
  id_of_service, id_of_route, id_of_app, id_of_rate_limit_rule, list_routes, get_api_key_by_key,
  get_app, get_rate_limit_rule, get_service,
}
use adaptive_api_routing_gat.Tests.Tables.{store-IsConsistent}
use adaptive_api_routing_gat.Tests.Samples.{
  orders, api_route, users_route, app, key, rule, store, users,
}
use adaptive_api_routing_gat.Gateway.Sound.{IsSound}
use adaptive_api_routing_gat.Base.Int.{pos}
use adaptive_api_routing_gat.Base.Time.{since}
use adaptive_api_routing_gat.Base.Float.{Nanos, nanos_float, Nanos-IsFloat}
use adaptive_api_routing_gat.Model.ApiKeys.{is_expired}
use adaptive_api_routing_gat.Model.Rules.{rate_per_second}
use adaptive_api_routing_gat.RateLimit
use adaptive_api_routing_gat.RateLimit.{new_token_bucket, refill, take_token}
use adaptive_api_routing_gat.CircuitBreaker
use adaptive_api_routing_gat.CircuitBreaker.{CircuitBreaker, open_state, record_success}
use adaptive_api_routing_gat.Gateway.{
  Gateway, allow_request, bucket_for, allow_service, breaker_for,
}
use adaptive_api_routing_gat.Gateway.Auth.{authenticate, authenticate_key}
use adaptive_api_routing_gat.Gateway.Matching.{covers, match_routes, match_route}
use adaptive_api_routing_gat.Handler.Proxy.{copied, Upstream}
use adaptive_api_routing_gat.Handler.Proxy.Paths.{upstream_path, single_joining_slash}
use adaptive_api_routing_gat.Handler.Phases.{arrived, advance}
use adaptive_api_routing_gat.Handler.Phases.Schedules.{
  run-IsSound, Thread, take_turn, run, phase_at,
}
use adaptive_api_routing_gat.Handler.Phases.Probe.{in_flight, IsSilent, run-in_flight}
use adaptive_api_routing_gat.Tests.Requests.{request, moments}

abbrev upstream : Upstream
upstream = record { base_path = λ url. some []; answer = λ url path. copied 200 }

abbrev opened : CircuitBreaker
opened = record {
  failure_threshold = pos 5;
  reset_timeout = pos 10;
  state = open_state;
  consecutive_failures = pos 5;
  last_failure = 40;
}

abbrev gateway : Gateway Nanos
gateway = record { store = store; buckets = []; breakers = (codes "s1", opened) ∷ [] }

abbrev threads : List Thread
threads =
    record { request = request; moments = moments; phase = arrived }
    ∷ record { request = request; moments = moments; phase = arrived }
    ∷ []

-- The requests in turn, until the first is in flight and the second has been refused.
abbrev in_turn : List ℕ
in_turn = 0 ∷ 1 ∷ 0 ∷ 1 ∷ 0 ∷ 1 ∷ 0 ∷ 1 ∷ 0 ∷ 1 ∷ []

opened_found : lookup users.id gateway.breakers ≡ some opened
unfolding lookup same
opened_found = refl

idle : in_flight users.id threads ≡ 0
unfolding in_flight
idle = refl

in_turn-IsSilent : IsSilent upstream users.id in_turn threads gateway
unfolding IsSilent take_turn advance phase_at match_route match_routes list_routes same covers
    has_prefix len authenticate get_api_key_by_key authenticate_key is_expired get_app lookup
    allow_request get_rate_limit_rule bucket_for new_token_bucket rate_per_second RateLimit.allow
    refill take_token since insert delete get_service allow_service breaker_for CircuitBreaker.new
    CircuitBreaker.allow upstream_path single_joining_slash trim_prefix
in_turn-IsSilent =
    (refl, (refl, (refl, (refl, (refl, (refl, (refl, (refl, (refl, (refl, tt))))))))))

run-in_flight_example : in_flight users.id (run upstream in_turn threads gateway).1 ≤ 1
run-in_flight_example =
    run-in_flight upstream users.id in_turn threads gateway opened opened_found refl idle
      in_turn-IsSilent

empty-Everywhere : {A : Type 0} (P : Text → A → Type 0) → Everywhere P []
unfolding lookup
empty-Everywhere P k v e = ground arith

opened-IsValid : Breaker.IsValid opened
opened-IsValid = ground arith

store-IsSound : Stored.IsSound store
unfolding insert delete same
store-IsSound = record {
  services =
      insert-IsKeyed id_of_service (codes "s1") users _ refl
        (insert-IsKeyed id_of_service (codes "s2") orders [] refl (empty-IsKeyed id_of_service));
  routes =
      insert-IsKeyed id_of_route (codes "r1") api_route _ refl
        (insert-IsKeyed id_of_route (codes "r2") users_route [] refl (empty-IsKeyed id_of_route));
  apps = insert-IsKeyed id_of_app (codes "a1") app [] refl (empty-IsKeyed id_of_app);
  api_keys = store-IsConsistent.api_keys;
  known = insert-Everywhere (codes "k1") key [] refl (empty-Everywhere (λ _ k. IsKnown k));
  rate_limit_rules =
      insert-IsKeyed id_of_rate_limit_rule (codes "l1") rule [] refl
        (empty-IsKeyed id_of_rate_limit_rule);
  request_logs = empty-IsKeyed id_of_request_log;
  health_checks = empty-IsKeyed id_of_health_check;
}

gateway-IsSound : IsSound gateway
unfolding insert delete same lookup
gateway-IsSound = record {
  store = store-IsSound;
  breakers =
      insert-Everywhere (codes "s1") opened [] opened-IsValid
        (empty-Everywhere (λ _ b. Breaker.IsValid b));
  buckets = empty-Everywhere (λ _ b. Bucket.IsValid b);
}

run-IsSound_example : IsSound (run upstream in_turn threads gateway).0
run-IsSound_example = run-IsSound upstream Nanos-IsFloat in_turn threads gateway gateway-IsSound
