-- ===== src/CircuitBreaker.antt =====
-- internal/circuitbreaker/circuit_breaker.go: the breaker of an upstream service. The mutex makes
-- each method one step; the time that a method reads is its argument.
pub mod Invariant
pub mod Cooldown
use adaptive_api_routing_gat.Base.{
  ℕ, ◌+◌, ◌*◌, Bool, true, false, ◌||◌, List, [], ◌∷◌, if◌then◌else◌,
}
use adaptive_api_routing_gat.Base.{Text, codes}
use adaptive_api_routing_gat.Base.Int.{ℤ, pos, ◌+ℤ◌, leb_ℤ, wrap}
use adaptive_api_routing_gat.Base.Time.{Time, since, second}

-- `State`; the field is private, so that no other number reaches the `default` cases.
pub data State : Type 0 where
  closed open_state half_open : State

abbrev pub is_half_open : State → Bool
is_half_open half_open = true
is_half_open _ = false

unfoldable pub state_string : State → Text
state_string closed = codes "closed"
state_string open_state = codes "open"
state_string half_open = codes "half-open"

pub record CircuitBreaker : Type 0 where
  pub state : State
  pub failure_threshold : ℤ
  pub reset_timeout : ℤ
  pub consecutive_failures : ℤ
  pub last_failure : Time

unfoldable pub new : ℤ → ℤ → CircuitBreaker
new failure_threshold reset_timeout = record {
  state = closed;
  failure_threshold = if leb_ℤ failure_threshold (pos 0) then pos 5 else failure_threshold;
  reset_timeout = if leb_ℤ reset_timeout (pos 0) then pos (30 * second) else reset_timeout;
  consecutive_failures = pos 0;
  last_failure = 0;
}

-- The `switch` of `Allow`.
abbrev allow_in : State → Time → CircuitBreaker → CircuitBreaker × Bool
allow_in closed now cb = (cb, true)
allow_in open_state now cb =
    if leb_ℤ cb.reset_timeout (since now cb.last_failure)
    then (record cb { state = half_open }, true)
    else (cb, false)
allow_in half_open now cb = (cb, false)

unfoldable pub allow : Time → CircuitBreaker → CircuitBreaker × Bool
allow now cb = allow_in cb.state now cb

unfoldable pub record_success : CircuitBreaker → CircuitBreaker
record_success cb = record cb { consecutive_failures = pos 0; state = closed }

unfoldable pub record_failure : Time → CircuitBreaker → CircuitBreaker
record_failure now cb =
    let failures = wrap (cb.consecutive_failures +ℤ pos 1) in
    record cb {
      consecutive_failures = failures;
      last_failure = now;
      state =
          if is_half_open cb.state || leb_ℤ cb.failure_threshold failures
          then open_state
          else cb.state;
    }

-- `State` and `FailureCount`
abbrev pub current_state : CircuitBreaker → State
current_state cb = cb.state

abbrev pub failure_count : CircuitBreaker → ℤ
failure_count cb = cb.consecutive_failures

-- A call of a method, and the breaker and the answers of `Allow` after a sequence of calls.
pub data Call : Type 0 where
  call_allow : Time → Call
  call_success : Call
  call_failure : Time → Call

unfoldable pub step : Call → CircuitBreaker → CircuitBreaker
unfolding allow record_success record_failure
step (call_allow now) cb = (allow now cb).0
step call_success cb = record_success cb
step (call_failure now) cb = record_failure now cb

unfoldable pub run : List Call → CircuitBreaker → CircuitBreaker
run [] cb = cb
run (c ∷ cs) cb = run cs (step c cb)

-- The number of `true` answers of a sequence of `Allow` calls.
unfoldable pub granted : List Time → CircuitBreaker → ℕ
granted [] cb = 0
granted (t ∷ ts) cb = (if (allow t cb).1 then 1 else 0) + granted ts (allow t cb).0
