-- ===== src/CircuitBreaker/Invariant.antt =====
-- What every breaker built by `New` satisfies after any calls, and when it opens.
use adaptive_api_routing_gat.Base.{
  ℕ, ◌+◌, ◌≡◌, ◌∙◌, List, [], ◌∷◌, map, length, Bool-cases, inl, inr, arith, leb, if◌then◌else◌,
}
use adaptive_api_routing_gat.Base.Int.{ℤ, pos, ◌+ℤ◌, ◌≤ℤ◌, ◌<ℤ◌, IsInt, wrap, pos_part, +ℤ_parts}
use adaptive_api_routing_gat.Base.Time.{Time}
use adaptive_api_routing_gat.CircuitBreaker.{
  State, closed, open_state, CircuitBreaker, new, allow, record_success, record_failure, Call,
  call_allow, call_success, call_failure, step, run,
}

-- A closed breaker has counted fewer failures than the threshold.
abbrev pub IsBelow : State → CircuitBreaker → Type 0
IsBelow closed cb =
    (pos 0 ≤ℤ cb.consecutive_failures) × (cb.consecutive_failures <ℤ cb.failure_threshold)
IsBelow _ cb = Unit

pub record IsValid (cb : CircuitBreaker) : Type 0 where
  pub threshold_int : IsInt cb.failure_threshold
  pub timeout_int : IsInt cb.reset_timeout
  pub threshold_pos : pos 0 <ℤ cb.failure_threshold
  pub timeout_pos : pos 0 <ℤ cb.reset_timeout
  pub below : IsBelow cb.state cb

pub new-IsValid : (n t : ℤ) → IsInt n → IsInt t → IsValid (new n t)
unfolding new
new-IsValid n t hn ht = ground arith

pub allow-IsValid : (now : Time) (cb : CircuitBreaker) → IsValid cb → IsValid (allow now cb).0
unfolding allow
allow-IsValid now cb v = ground arith

pub record_success-IsValid : (cb : CircuitBreaker) → IsValid cb → IsValid (record_success cb)
unfolding record_success
record_success-IsValid cb v = ground arith

wrap_next : (z n : ℤ) → pos 0 ≤ℤ z → z <ℤ n → IsInt n → wrap (z +ℤ pos 1) ≡ z +ℤ pos 1
unfolding wrap ◌+ℤ◌
wrap_next z n h lt fits = ground arith

pub record_failure-IsValid :
    (now : Time) (cb : CircuitBreaker) → IsValid cb → IsValid (record_failure now cb)
unfolding record_failure
record_failure-IsValid now cb v = ground (
  arith,
  wrap_next cb.consecutive_failures cb.failure_threshold,
  +ℤ_parts cb.consecutive_failures (pos 1),
)

step-IsValid : (c : Call) (cb : CircuitBreaker) → IsValid cb → IsValid (step c cb)
unfolding step
step-IsValid (call_allow now) cb v = allow-IsValid now cb v
step-IsValid call_success cb v = record_success-IsValid cb v
step-IsValid (call_failure now) cb v = record_failure-IsValid now cb v

pub run-IsValid : (cs : List Call) (cb : CircuitBreaker) → IsValid cb → IsValid (run cs cb)
unfolding run
run-IsValid [] cb v = v
run-IsValid (c ∷ cs) cb v = run-IsValid cs (step c cb) (step-IsValid c cb v)

-- A breaker that `New` builds from any two integers has, after any sequence of `Allow`,
-- `RecordSuccess` and `RecordFailure` calls at any times, a positive threshold and timeout, and
-- while it is closed it has counted at least 0 and fewer failures than the threshold.
pub run-new-IsValid : (n t : ℤ) (cs : List Call) → IsInt n → IsInt t → IsValid (run cs (new n t))
run-new-IsValid n t cs hn ht = run-IsValid cs (new n t) (new-IsValid n t hn ht)

abbrev pub failures : List Time → List Call
failures ts = map call_failure ts

stays_open :
    (ts : List Time) (cb : CircuitBreaker)
    → cb.state ≡ open_state
    → (run (failures ts) cb).state ≡ open_state
unfolding run step record_failure
stays_open [] cb e = e
stays_open (t ∷ ts) cb e = stays_open ts (step (call_failure t) cb) (ground arith)

wrap_count : (c : ℕ) (n : ℤ) → IsInt n → pos c <ℤ n → wrap (pos c +ℤ pos 1) ≡ pos (c + 1)
unfolding wrap ◌+ℤ◌
wrap_count c n fits lt = ground arith

count_below :
    (cb : CircuitBreaker) (c : ℕ)
    → IsValid cb
    → cb.state ≡ closed
    → cb.consecutive_failures ≡ pos c
    → pos c <ℤ cb.failure_threshold
count_below cb c v e f = ground arith

next_count :
    (cb : CircuitBreaker) (c : ℕ)
    → IsValid cb
    → cb.state ≡ closed
    → cb.consecutive_failures ≡ pos c
    → wrap (cb.consecutive_failures +ℤ pos 1) ≡ pos (c + 1)
next_count cb c v e f =
    rw f (wrap_count c cb.failure_threshold v.threshold_int (count_below cb c v e f))

-- One failure of a closed breaker.
record_failure-closed :
    (now : Time) (cb : CircuitBreaker) (c : ℕ)
    → IsValid cb
    → cb.state ≡ closed
    → cb.consecutive_failures ≡ pos c
    → ((record_failure now cb).state
        ≡ (if leb (pos_part cb.failure_threshold) (c + 1) then open_state else closed))
      × ((record_failure now cb).consecutive_failures ≡ pos (c + 1))
      × ((record_failure now cb).failure_threshold ≡ cb.failure_threshold)
unfolding record_failure
record_failure-closed now cb c v e f = ground (arith, next_count cb c v e f)

-- A closed breaker with a valid state that has counted `c` failures is, after a run of failures
-- with nothing between them, open exactly if these bring the count to the threshold, and else still closed.
pub run-failures :
    (ts : List Time) (cb : CircuitBreaker) (c : ℕ)
    → IsValid cb
    → cb.state ≡ closed
    → cb.consecutive_failures ≡ pos c
    → (run (failures ts) cb).state
      ≡ (if leb (pos_part cb.failure_threshold) (c + length ts) then open_state else closed)
unfolding run step
run-failures [] cb c v e f = ground (arith, count_below cb c v e f)
run-failures (t ∷ ts) cb c v e f =
    let (next, count, same_threshold) = record_failure-closed t cb c v e f in
    elim (Bool-cases (leb (pos_part cb.failure_threshold) (c + 1))) [
      | inl full ↦ stays_open ts (record_failure t cb) (ground arith) ∙ ground arith
      | inr room ↦ ground (
        arith,
        run-failures ts (record_failure t cb) (c + 1) (record_failure-IsValid t cb v) (ground arith)
            count,
      )
    ]
