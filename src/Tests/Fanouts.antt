-- ===== src/Tests/Fanouts.antt =====
-- Runs of `Fanout`.
use adaptive_api_routing_gat.Base.{
  ◌≢◌, ◌⊎◌, same, ℕ, ◌+◌, ◌*◌, ◌≤◌, ◌≡◌, refl, true, false, Option, none, some, Text, codes, List,
  [], ◌∷◌, length, count_of, arith,
}
use adaptive_api_routing_gat.Base.Int.{pos, negsuc}
use adaptive_api_routing_gat.Flow.Fanout.{
  Fanout, FanoutError, ready, start, start_workers, send, close_results, receive, see_closed,
}
use adaptive_api_routing_gat.Flow.Fanout.Runs.{Run, here, next, CanStep, fanout-terminates}
use adaptive_api_routing_gat.Flow.Fanout.Delivery.{fanout-delivers}
use adaptive_api_routing_gat.Flow.Fanout.Bounded.{out_of, fanout-bounded}
use adaptive_api_routing_gat.Flow.Fanout.Silence.{HasError, fanout-silent}

abbrev values : List Text
values = codes "a" ∷ codes "b" ∷ []

-- The second goroutine is faster.
abbrev ended : Fanout
ended = record {
  workers = [];
  results = [];
  errs = none;
  closed = true;
  cancelled = true;
  out = codes "b" ∷ codes "a" ∷ [];
  returned = some (codes "b" ∷ codes "a" ∷ [], none);
}

run_to_end : Run 2 (negsuc 0) false 6 (start values) ended
unfolding start start_workers
run_to_end =
    next
      (next
        (next
          (next
            (next
              (next here (send 1 (codes "b") (ready 0 (codes "a") ∷ []) [] refl refl (omega arith)))
              (send 0 (codes "a") [] [] refl refl (omega arith)))
            (close_results refl refl))
          (receive refl refl))
        (receive refl refl))
      (see_closed refl refl refl)

fanout-terminates_example :
    (6 ≤ 3 * length values + 3) × ((ended.returned ≢ none) ⊎ CanStep 2 (negsuc 0) false ended)
fanout-terminates_example = fanout-terminates values (negsuc 0) false run_to_end

abbrev no_error : Option FanoutError
no_error = none

fanout-delivers_example : (no_error ≡ none) × (count_of (λ v. same v (codes "a")) ended.out ≡ 1)
unfolding same
fanout-delivers_example =
    fanout-delivers values (negsuc 0) (refl, (refl, tt)) run_to_end ended.out no_error
      (λ v. same v (codes "a")) refl

fanout-silent_example :
    (t : Fanout) × (m : ℕ) × Run 3
      (pos 1)
      false
      m
      (start (codes "a" ∷ codes "b" ∷ codes "c" ∷ []))
      t
    × HasError t
    × ((out : List Text) × (t.returned ≡ some (out, none)))
fanout-silent_example = fanout-silent (codes "a" ∷ []) (codes "c" ∷ []) (codes "b") false

fanout-bounded_example :
    count_of (λ v. same v (codes "a")) (out_of ended.returned)
    ≤ count_of (λ v. same v (codes "a")) values
fanout-bounded_example = fanout-bounded values (negsuc 0) false (λ v. same v (codes "a")) run_to_end
