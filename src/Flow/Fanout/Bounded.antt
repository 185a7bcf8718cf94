-- ===== src/Flow/Fanout/Bounded.antt =====
-- `Fanout` invents no value, whatever fails and whenever its context ends.
use adaptive_api_routing_gat.Base.{
  ℕ, ◌≤◌, Bool, some, none, Option, Text, List, [], length, count_of, arith,
}
use adaptive_api_routing_gat.Base.Int.{ℤ}
use adaptive_api_routing_gat.Flow.Fanout.{
  FanoutError, Fanout, start, Step, reject, cancel, send, give_up, context_ends, close_results,
  receive, see_closed, see_error, see_cancelled,
}
use adaptive_api_routing_gat.Flow.Fanout.Runs.{Run, here, next}
use adaptive_api_routing_gat.Flow.Fanout.Delivery.{present, held-start_workers, Step-present}

-- What was returned, the empty list before.
abbrev pub out_of : Option (List Text × Option FanoutError) → List Text
out_of none = []
out_of (some (out, _)) = out

module _ {capacity : ℕ} {fail_at : ℤ} {may_end : Bool} (p : Text → Bool) where
  -- What was returned holds no more than what was collected.
  Step-out_of :
      {s t : Fanout}
      → Step capacity fail_at may_end s t
      → count_of p (out_of s.returned) ≤ count_of p s.out
      → count_of p (out_of t.returned) ≤ count_of p t.out
  Step-out_of (reject i value xs ys e h) b = b
  Step-out_of (cancel xs ys e) b = b
  Step-out_of (send i value xs ys e h room) b = b
  Step-out_of (give_up i value xs ys e h c) b = b
  Step-out_of (context_ends m c) b = b
  Step-out_of (close_results w c) b = b
  Step-out_of (receive r e) b = rw r (omega arith)
  Step-out_of (see_closed r e c) b = omega arith
  Step-out_of (see_error r e) b = omega arith
  Step-out_of (see_cancelled r c) b = omega arith

  Run-present :
      {n : ℕ} {s t : Fanout} → Run capacity fail_at may_end n s t → present p t ≤ present p s
  Run-present here = omega arith
  Run-present (next run step) = omega (arith, Run-present run, Step-present p step)

  Run-out_of :
      {n : ℕ} {s t : Fanout}
      → Run capacity fail_at may_end n s t
      → count_of p (out_of s.returned) ≤ count_of p s.out
      → count_of p (out_of t.returned) ≤ count_of p t.out
  Run-out_of here b = b
  Run-out_of (next run step) b = Step-out_of step (Run-out_of run b)

-- Whichever index fails, whenever the caller's context ends and in whatever order the goroutines
-- run, what is returned has at most as many texts that pass a test as the values have, for every
-- test: no value is made up or returned twice.
pub fanout-bounded :
    (values : List Text) (fail_at : ℤ) (may_end : Bool) {n : ℕ} {s : Fanout} (p : Text → Bool)
    → Run (length values) fail_at may_end n (start values) s
    → count_of p (out_of s.returned) ≤ count_of p values
unfolding start
fanout-bounded values fail_at may_end p run =
    omega (arith, Run-out_of p run (omega arith), Run-present p run, held-start_workers p 0 values)
