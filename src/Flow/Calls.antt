-- ===== src/Flow/Calls.antt =====
-- Calls under a context: `CallWithScope` and `FinishAttempt` of internal/flowservice/workflows.go,
-- `ScopeSequence` and `ShutdownSequence` of internal/flowhandler/coordinator.go. What a context
-- answers and what a callback does are parameters, on a state of the world that they read and
-- change.
use adaptive_api_routing_gat.Base.{
  ℕ, ◌+◌, ◌≡◌, Bool, Option, none, some, Text, codes, arith, List, [], ◌∷◌,
}
use adaptive_api_routing_gat.Flow.{Attempt, FlowStore, save_attempt}

unfoldable pub finish_attempt : Attempt → FlowStore → FlowStore × Bool
unfolding save_attempt
finish_attempt a s = save_attempt a s

pub record RequestScope (C : Type 0) : Type 0 where
  pub tenant : Text
  pub ctx : C

abbrev pub new_request_scope : {C : Type 0} → C → Text → RequestScope C
new_request_scope ctx tenant = record { tenant = tenant; ctx = ctx }

-- `C` are the contexts, `S` the states of the world, `E` the errors.
module _ {C S E : Type 0} (context_err : C → S → Option E) (call : C → S → S × Option E) where
  unfoldable pub call_with_scope : RequestScope C → S → S × Option E
  call_with_scope scope s = elim (context_err scope.ctx s) [
    | some e ↦ (s, some e)
    | none ↦ call scope.ctx s
  ]

  unfoldable pub scope_sequence : (first second : C) → S → S × Option E × Option E
  unfolding call_with_scope
  scope_sequence first second s =
      let (s', first_err) = call_with_scope (new_request_scope first (codes "first")) s in
      let (s'', second_err) = call_with_scope (new_request_scope second (codes "second")) s' in
      (s'', first_err, second_err)

  -- A first context that has ended is answered with its error, its call is not made, and the
  -- second call runs as if it were the only one.
  scope_sequence-ended :
      (first second : C) (s : S) {e : E}
      → context_err first s ≡ some e
      → scope_sequence first second s ≡ (
        (call_with_scope (new_request_scope second (codes "second")) s).0,
        some e,
        (call_with_scope (new_request_scope second (codes "second")) s).1,
      )
  unfolding scope_sequence call_with_scope
  scope_sequence-ended first second s ended = ground arith

-- What the `select` of `ShutdownSequence` picks.
pub data Selected : Type 0 where
  ended ticked : Selected

-- The loop over what it picks, with its count: the count that is returned, or none if the context
-- has not ended yet.
module _ {S : Type 0} (call : S → S) where
  unfoldable pub shutdown_from : ℕ → List Selected → S → S × Option ℕ
  shutdown_from count [] s = (s, none)
  shutdown_from count (ended ∷ rest) s = (s, some count)
  shutdown_from count (ticked ∷ rest) s = shutdown_from (count + 1) rest (call s)

  unfoldable pub shutdown_sequence : List Selected → S → S × Option ℕ
  unfolding shutdown_from
  shutdown_sequence picks s = shutdown_from 0 picks s
