-- ===== src/Flow/Fanout.antt =====
-- `Fanout` of internal/flowhandler/coordinator.go: the goroutines that it starts, the channels
-- between them and the loop that collects, as a step relation. A goroutine's last action and its
-- `wg.Done` are one step.
pub mod Runs
pub mod Delivery
pub mod Silence
pub mod Bounded
use adaptive_api_routing_gat.Base.{
  ℕ, ◌+◌, ◌<◌, ◌≡◌, Bool, true, false, Option, none, some, Text, List, [], ◌∷◌, ◌++◌, length,
}
use adaptive_api_routing_gat.Base.Int.{ℤ, pos, eq_ℤ}

-- A goroutine before its `select` or its test, or the one that has handed in its error and has not
-- yet cancelled the context.
pub data Worker : Type 0 where
  ready : (i : ℕ) → (value : Text) → Worker
  rejecting : Worker

pub data FanoutError : Type 0 where
  upstream_rejected context_error : FanoutError

-- The goroutines that are left, the channels `results` and `errs` (of capacity 1), whether the
-- first is closed and whether the context is cancelled, the values collected and what was returned.
pub record Fanout : Type 0 where
  pub workers : List Worker
  pub results : List Text
  pub errs : Option FanoutError
  pub closed : Bool
  pub cancelled : Bool
  pub out : List Text
  pub returned : Option (List Text × Option FanoutError)

unfoldable pub start_workers : (i : ℕ) → List Text → List Worker
start_workers i [] = []
start_workers i (v ∷ vs) = ready i v ∷ start_workers (i + 1) vs

unfoldable pub start : List Text → Fanout
unfolding start_workers
start values = record {
  workers = start_workers 0 values;
  results = [];
  errs = none;
  closed = false;
  cancelled = false;
  out = [];
  returned = none;
}

-- `case errs <- …: default:`
abbrev pub hand_in : Option FanoutError → Option FanoutError
hand_in none = some upstream_rejected
hand_in (some e) = some e

-- The error that is returned when the context is found cancelled.
abbrev pub error_at_end : Option FanoutError → FanoutError
error_at_end none = context_error
error_at_end (some e) = e

-- One step of one goroutine, of the collector or, where the caller's context `may_end`, of its end.
-- The channel `results` has the given capacity. The deferred `cancel` runs with the return.
pub data Step (capacity : ℕ) (fail_at : ℤ) (may_end : Bool) : Fanout → Fanout → Type 0 where
  reject :
      {s : Fanout} (i : ℕ) (value : Text) (before after : List Worker)
      → s.workers ≡ before ++ ready i value ∷ after
      → eq_ℤ (pos i) fail_at ≡ true
      → Step capacity fail_at may_end s
          (record s { workers = before ++ rejecting ∷ after; errs = hand_in s.errs })
  cancel :
      {s : Fanout} (before after : List Worker)
      → s.workers ≡ before ++ rejecting ∷ after
      → Step capacity fail_at may_end s (record s { workers = before ++ after; cancelled = true })
  send :
      {s : Fanout} (i : ℕ) (value : Text) (before after : List Worker)
      → s.workers ≡ before ++ ready i value ∷ after
      → eq_ℤ (pos i) fail_at ≡ false
      → length s.results < capacity
      → Step capacity fail_at may_end s
          (record s { workers = before ++ after; results = s.results ++ value ∷ [] })
  give_up :
      {s : Fanout} (i : ℕ) (value : Text) (before after : List Worker)
      → s.workers ≡ before ++ ready i value ∷ after
      → eq_ℤ (pos i) fail_at ≡ false
      → s.cancelled ≡ true
      → Step capacity fail_at may_end s (record s { workers = before ++ after })
  context_ends :
      {s : Fanout}
      → may_end ≡ true
      → s.cancelled ≡ false
      → Step capacity fail_at may_end s (record s { cancelled = true })
  close_results :
      {s : Fanout}
      → s.workers ≡ []
      → s.closed ≡ false
      → Step capacity fail_at may_end s (record s { closed = true })
  receive :
      {s : Fanout} {value : Text} {rest : List Text}
      → s.returned ≡ none
      → s.results ≡ value ∷ rest
      → Step capacity fail_at may_end s (record s { results = rest; out = s.out ++ value ∷ [] })
  see_closed :
      {s : Fanout}
      → s.returned ≡ none
      → s.results ≡ []
      → s.closed ≡ true
      → Step capacity fail_at may_end s
          (record s { returned = some (s.out, none); cancelled = true })
  see_error :
      {s : Fanout} {e : FanoutError}
      → s.returned ≡ none
      → s.errs ≡ some e
      → Step capacity fail_at may_end s
          (record s { returned = some (s.out, some e); errs = none; cancelled = true })
  see_cancelled :
      {s : Fanout}
      → s.returned ≡ none
      → s.cancelled ≡ true
      → Step capacity fail_at may_end s (record s {
        returned = some (s.out, some (error_at_end s.errs));
        errs = none;
        cancelled = true;
      })
