-- ===== src/Tests/Probing.antt =====
-- A breaker that a request finds half open, and one that it leaves half open.
use adaptive_api_routing_gat.Base.{◌≡◌, refl, none, some, [], ◌∷◌, ok, true, codes, same, lookup}
use adaptive_api_routing_gat.Base.Int.{pos}
use adaptive_api_routing_gat.Base.Time.{since}
use adaptive_api_routing_gat.Base.Float.{Nanos, nanos_float}
use adaptive_api_routing_gat.CircuitBreaker
use adaptive_api_routing_gat.CircuitBreaker.{CircuitBreaker, open_state, half_open}
use adaptive_api_routing_gat.Store.Entities.{get_service}
use adaptive_api_routing_gat.Gateway.{Gateway}
use adaptive_api_routing_gat.Handler.Proxy.{broken_off, copied, Upstream, forward}
use adaptive_api_routing_gat.Handler.Probing.{forward-unparsed, forward-broken_off}
use adaptive_api_routing_gat.Tests.Samples.{store, users, users_route}
use adaptive_api_routing_gat.Tests.Requests.{request, moments}

abbrev opened : CircuitBreaker
opened = record {
  state = open_state;
  failure_threshold = pos 5;
  reset_timeout = pos 10;
  consecutive_failures = pos 5;
  last_failure = 40;
}

abbrev probing : CircuitBreaker
probing = record opened { state = half_open }

abbrev gateway_with : CircuitBreaker → Gateway Nanos
gateway_with b = record { store = store; buckets = []; breakers = (codes "s1", b) ∷ [] }

-- No base URL can be parsed.
abbrev unparsed : Upstream
unparsed = record { base_path = λ url. none; answer = λ url path. copied 200 }

users_stored : get_service users_route.service_id store ≡ ok users
unfolding get_service lookup same
users_stored = refl

breaker_found : (b : CircuitBreaker) → lookup users.id (gateway_with b).breakers ≡ some b
unfolding lookup same
breaker_found b = refl

granted_at_53 : (CircuitBreaker.allow 53 opened).1 ≡ true
unfolding CircuitBreaker.allow since
granted_at_53 = refl

forward-unparsed_example :
    ((forward unparsed request users_route
        (codes "a1")
        moments
        (gateway_with opened)).1.reply.status
      ≡ 500)
    × (lookup users.id
          (forward unparsed request users_route
            (codes "a1")
            moments
            (gateway_with opened)).0.breakers
        ≡ some probing)
forward-unparsed_example =
    forward-unparsed unparsed request moments users_route (codes "a1") (gateway_with opened) users
      opened users_stored refl (breaker_found opened) refl granted_at_53

-- Every response breaks off.
abbrev broken : Upstream
broken = record { base_path = λ url. some []; answer = λ url path. broken_off 200 }

forward-broken_off_example :
    ((forward broken request users_route (codes "a1") moments (gateway_with opened)).1.aborted
      ≡ true)
    × (lookup users.id
          (forward broken request users_route (codes "a1") moments (gateway_with opened)).0.breakers
        ≡ some probing)
    × ((forward broken request users_route (codes "a1") moments (gateway_with opened)).0.store
        ≡ store)
forward-broken_off_example =
    forward-broken_off broken request moments users_route (codes "a1") (gateway_with opened) users
      opened users_stored refl refl (breaker_found opened) refl granted_at_53
