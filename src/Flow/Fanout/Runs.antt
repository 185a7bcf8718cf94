-- ===== src/Flow/Fanout/Runs.antt =====
-- Runs of `Fanout`: how long they are, and that none is stuck before it returns.
use adaptive_api_routing_gat.Base.{
  ◌≢◌, ◌⊎◌, none-ne-some, Option-cases, sym, ◌∙◌, ℕ, ◌+◌, ◌*◌, ◌≤◌, ◌<◌, ◌≡◌, refl, ap, Bool, true,
  none, some, Text, List, [], ◌∷◌, ◌++◌, length, length-append, Bool-cases, inl, inr, arith,
  if◌then◌else◌,
}
use adaptive_api_routing_gat.Base.Int.{ℤ, pos, eq_ℤ}
use adaptive_api_routing_gat.Flow.Fanout.{
  Worker, ready, rejecting, Fanout, start_workers, start, Step, reject, cancel, send, give_up,
  context_ends, close_results, receive, see_closed, see_error, see_cancelled,
}

module _ (capacity : ℕ) (fail_at : ℤ) (may_end : Bool) where
  -- A run of some number of steps.
  pub data Run : ℕ → Fanout → Fanout → Type 0 where
    here : {s : Fanout} → Run 0 s s
    next :
        {n : ℕ} {s t u : Fanout} → Run n s t → Step capacity fail_at may_end t u → Run (n + 1) s u

-- The steps that a goroutine may still make, with the receipt of its value.
abbrev weight : List Worker → ℕ
weight [] = 0
weight (ready i value ∷ ws) = 3 + weight ws
weight (rejecting ∷ ws) = 1 + weight ws

-- No run is longer than this.
abbrev pub measure : Fanout → ℕ
measure s =
    weight s.workers
    + length s.results
    + (if s.closed then 0 else 1)
    + (if s.cancelled then 0 else 1)
    + (elim s.returned [ none ↦ 1 | some _ ↦ 0 ])

weight-append : (xs ys : List Worker) → weight (xs ++ ys) ≡ weight xs + weight ys
weight-append [] ys = omega arith
weight-append (ready i value ∷ xs) ys = omega (arith, weight-append xs ys)
weight-append (rejecting ∷ xs) ys = omega (arith, weight-append xs ys)

-- There is room in the channel for each goroutine that is left.
abbrev pub HasRoom : ℕ → Fanout → Type 0
HasRoom capacity s = length s.results + length s.workers ≤ capacity

-- A state from which a step can be made.
abbrev pub CanStep : ℕ → ℤ → Bool → Fanout → Type 0
CanStep capacity fail_at may_end s = (t : Fanout) × Step capacity fail_at may_end s t

module _ {capacity : ℕ} {fail_at : ℤ} {may_end : Bool} where
  Step-measure : {s t : Fanout} → Step capacity fail_at may_end s t → measure t < measure s
  Step-measure (reject i value xs ys e h) =
      let w = weight-append xs (ready i value ∷ ys) in
      let w' = weight-append xs (rejecting ∷ ys) in ground (arith, ap weight e)
  Step-measure (cancel xs ys e) =
      let w = weight-append xs (rejecting ∷ ys) in
      let w' = weight-append xs ys in ground (arith, ap weight e)
  Step-measure {s = s} (send i value xs ys e h room) =
      let w = weight-append xs (ready i value ∷ ys) in
      let w' = weight-append xs ys in
      ground (arith, ap weight e, length-append s.results (value ∷ []))
  Step-measure (give_up i value xs ys e h c) =
      let w = weight-append xs (ready i value ∷ ys) in
      let w' = weight-append xs ys in ground (arith, ap weight e)
  Step-measure (context_ends m c) = ground arith
  Step-measure (close_results w c) = ground arith
  Step-measure (receive r e) = ground arith
  Step-measure (see_closed r e c) = ground arith
  Step-measure (see_error r e) = ground arith
  Step-measure (see_cancelled r c) = ground arith

  Run-measure :
      {n : ℕ} {s t : Fanout} → Run capacity fail_at may_end n s t → n + measure t ≤ measure s
  Run-measure here = omega arith
  Run-measure (next run step) = omega (arith, Run-measure run, Step-measure step)

  Step-HasRoom :
      {s t : Fanout} → Step capacity fail_at may_end s t → HasRoom capacity s → HasRoom capacity t
  Step-HasRoom (reject i value xs ys e h) room =
      let n = length-append xs (ready i value ∷ ys) in
      let n' = length-append xs (rejecting ∷ ys) in omega (arith, ap length e)
  Step-HasRoom (cancel xs ys e) room =
      let n = length-append xs (rejecting ∷ ys) in
      let n' = length-append xs ys in omega (arith, ap length e)
  Step-HasRoom {s = s} (send i value xs ys e h free) room =
      let n = length-append xs (ready i value ∷ ys) in
      let n' = length-append xs ys in
      omega (arith, ap length e, length-append s.results (value ∷ []))
  Step-HasRoom (give_up i value xs ys e h c) room =
      let n = length-append xs (ready i value ∷ ys) in
      let n' = length-append xs ys in omega (arith, ap length e)
  Step-HasRoom (context_ends m c) room = room
  Step-HasRoom (close_results w c) room = room
  Step-HasRoom (receive r e) room = omega (arith, ap length e)
  Step-HasRoom (see_closed r e c) room = room
  Step-HasRoom (see_error r e) room = room
  Step-HasRoom (see_cancelled r c) room = room

  Run-HasRoom :
      {n : ℕ} {s t : Fanout}
      → Run capacity fail_at may_end n s t
      → HasRoom capacity s
      → HasRoom capacity t
  Run-HasRoom here room = room
  Run-HasRoom (next run step) room = Step-HasRoom step (Run-HasRoom run room)

  -- The first goroutine that is left is never blocked.
  worker-CanStep :
      (w : Worker) (ws : List Worker) (s : Fanout)
      → s.workers ≡ w ∷ ws
      → HasRoom capacity s
      → CanStep capacity fail_at may_end s
  worker-CanStep (ready i value) ws s e room = elim (Bool-cases (eq_ℤ (pos i) fail_at)) [
    | inl fails ↦ (_, reject i value [] ws e fails)
    | inr passes ↦ (_, send i value [] ws e passes (omega (arith, ap length e)))
  ]
  worker-CanStep rejecting ws s e room = (_, cancel [] ws e)

  collector-CanStep :
      (results : List Text) (s : Fanout)
      → s.results ≡ results
      → s.closed ≡ true
      → s.returned ≡ none
      → CanStep capacity fail_at may_end s
  collector-CanStep [] s e c r = (_, see_closed r e c)
  collector-CanStep (v ∷ rest) s e c r = (_, receive r e)

  unreturned-CanStep :
      (workers : List Worker) (s : Fanout)
      → s.workers ≡ workers
      → HasRoom capacity s
      → s.returned ≡ none
      → CanStep capacity fail_at may_end s
  unreturned-CanStep (w ∷ ws) s e room r = worker-CanStep w ws s e room
  unreturned-CanStep [] s e room r = elim (Bool-cases s.closed) [
    | inl closed ↦ collector-CanStep s.results s refl closed r
    | inr still_open ↦ (_, close_results e still_open)
  ]

length-start_workers : (i : ℕ) (vs : List Text) → length (start_workers i vs) ≡ length vs
unfolding start_workers
length-start_workers i [] = refl
length-start_workers i (v ∷ vs) = omega (arith, length-start_workers (i + 1) vs)

weight-start_workers : (i : ℕ) (vs : List Text) → weight (start_workers i vs) ≡ 3 * length vs
unfolding start_workers
weight-start_workers i [] = omega arith
weight-start_workers i (v ∷ vs) = omega (arith, weight-start_workers (i + 1) vs)

pub start-HasRoom : (values : List Text) → HasRoom (length values) (start values)
unfolding start
start-HasRoom values = omega (arith, length-start_workers 0 values)

-- However the goroutines are scheduled, a run has at most three steps for each value and three
-- more, and at its end something was returned or some step can still be made: a run that goes on
-- as long as it can comes to its return.
pub fanout-terminates :
    (values : List Text) (fail_at : ℤ) (may_end : Bool) {n : ℕ} {s : Fanout}
    → Run (length values) fail_at may_end n (start values) s
    → (n ≤ 3 * length values + 3)
      × ((s.returned ≢ none) ⊎ CanStep (length values) fail_at may_end s)
unfolding start
fanout-terminates values fail_at may_end {s = s} run =
    let bound = Run-measure run in
    let room = Run-HasRoom run (start-HasRoom values) in
    (
      omega (arith, weight-start_workers 0 values),
      elim (Option-cases s.returned) [
        | inl nothing ↦ inr (unreturned-CanStep s.workers s refl room nothing)
        | inr (o, e) ↦ inl (λ nothing. none-ne-some (sym nothing ∙ e))
      ],
    )
