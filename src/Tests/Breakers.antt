-- ===== src/Tests/Breakers.antt =====
-- The breaker.
use adaptive_api_routing_gat.Base.{◌≡◌, refl, [], ◌∷◌, arith}
use adaptive_api_routing_gat.Base.Int.{pos, wrap, ◌+ℤ◌}
use adaptive_api_routing_gat.CircuitBreaker.{
  CircuitBreaker, closed, open_state, new, run, step, call_allow, call_success, call_failure,
}
use adaptive_api_routing_gat.CircuitBreaker.Invariant.{
  IsValid, run-new-IsValid, run-failures, failures,
}

-- A breaker that two failures open for ten nanoseconds.
abbrev fresh : CircuitBreaker
fresh = record {
  state = closed;
  failure_threshold = pos 2;
  reset_timeout = pos 10;
  consecutive_failures = pos 0;
  last_failure = 0;
}

abbrev opened : CircuitBreaker
opened = record fresh { state = open_state; consecutive_failures = pos 2; last_failure = 4 }

fresh-IsValid : IsValid fresh
fresh-IsValid = ground arith

two_failures_open : run (call_failure 3 ∷ call_failure 4 ∷ []) (new (pos 2) (pos 10)) ≡ opened
unfolding run new step wrap ◌+ℤ◌
two_failures_open = refl

run-new-IsValid_example : IsValid (
    run (call_failure 3 ∷ call_allow 5 ∷ call_failure 4 ∷ call_success ∷ []) (new (pos 2) (pos 10)))
run-new-IsValid_example =
    run-new-IsValid (pos 2) (pos 10)
      (call_failure 3 ∷ call_allow 5 ∷ call_failure 4 ∷ call_success ∷ []) (ground arith)
      (ground arith)

run-failures_example : (run (failures (3 ∷ 4 ∷ [])) fresh).state ≡ open_state
run-failures_example = run-failures (3 ∷ 4 ∷ []) fresh 0 fresh-IsValid refl refl
