-- ===== src/Flow/Fanout/Silence.antt =====
-- A run in which the error of a goroutine is not returned.
use adaptive_api_routing_gat.Base.{
  ℕ, ◌+◌, ◌≡◌, refl, ap, ◌∙◌, Bool, true, false, Option, none, some, Text, List, [], ◌∷◌, ◌++◌,
  length, length-append, any, ◌||◌, Bool-cases, inl, inr, arith,
}
use adaptive_api_routing_gat.Base.Int.{ℤ, pos, eq_ℤ}
use adaptive_api_routing_gat.Flow.Fanout.{
  Worker, ready, rejecting, FanoutError, Fanout, hand_in, start_workers, start, reject, cancel,
  send, close_results, receive, see_closed,
}
use adaptive_api_routing_gat.Flow.Fanout.Runs.{Run, here, next, HasRoom, start-HasRoom}

-- An error was handed in.
abbrev pub HasError : Fanout → Type 0
HasError s = (e : FanoutError) × (s.errs ≡ some e)

abbrev fails : ℤ → Worker → Bool
fails fail_at (ready i value) = eq_ℤ (pos i) fail_at
fails fail_at rejecting = false

hand_in-some : (o : Option FanoutError) → (e : FanoutError) × (hand_in o ≡ some e)
hand_in-some none = (FanoutError.upstream_rejected, refl)
hand_in-some (some e) = (e, refl)

-- A state that can be reached and from which nothing was returned, with an error handed in if it
-- is due.
record IsPending (capacity : ℕ) (fail_at : ℤ) (may_end : Bool) (origin : Fanout) (due : Bool)
    (s : Fanout) : Type 0 where
  steps : ℕ
  run : Run capacity fail_at may_end steps origin s
  unreturned : s.returned ≡ none
  still_open : s.closed ≡ false
  room : HasRoom capacity s
  error : due ≡ true → HasError s

module _ {capacity : ℕ} {fail_at : ℤ} {may_end : Bool} {origin : Fanout} where
  due_if :
      {due due' : Bool} {s : Fanout}
      → (due' ≡ true → due ≡ true)
      → IsPending capacity fail_at may_end origin due s
      → IsPending capacity fail_at may_end origin due' s
  due_if h q = record {
    steps = q.steps;
    run = q.run;
    unreturned = q.unreturned;
    still_open = q.still_open;
    room = q.room;
    error = λ e. q.error (h e);
  }

  after_cancel :
      {due : Bool} (s : Fanout) (ws : List Worker)
      → s.workers ≡ rejecting ∷ ws
      → IsPending capacity fail_at may_end origin due s
      → IsPending capacity fail_at may_end origin due (record s { workers = ws; cancelled = true })
  after_cancel s ws e q = record {
    steps = q.steps + 1;
    run = next q.run (cancel [] ws e);
    unreturned = q.unreturned;
    still_open = q.still_open;
    room = omega (arith, q.room, ap length e);
    error = q.error;
  }

  after_reject :
      {due : Bool} (s : Fanout) (i : ℕ) (value : Text) (ws : List Worker)
      → s.workers ≡ ready i value ∷ ws
      → eq_ℤ (pos i) fail_at ≡ true
      → IsPending capacity fail_at may_end origin due s
      → IsPending capacity fail_at may_end origin true
          (record s { workers = rejecting ∷ ws; errs = hand_in s.errs })
  after_reject s i value ws e h q = record {
    steps = q.steps + 1;
    run = next q.run (reject i value [] ws e h);
    unreturned = q.unreturned;
    still_open = q.still_open;
    room = omega (arith, q.room, ap length e);
    error = λ _. hand_in-some s.errs;
  }

  after_send :
      {due : Bool} (s : Fanout) (i : ℕ) (value : Text) (ws : List Worker)
      → s.workers ≡ ready i value ∷ ws
      → eq_ℤ (pos i) fail_at ≡ false
      → IsPending capacity fail_at may_end origin due s
      → IsPending capacity fail_at may_end origin due
          (record s { workers = ws; results = s.results ++ value ∷ [] })
  after_send s i value ws e h q = record {
    steps = q.steps + 1;
    run = next q.run (send i value [] ws e h (omega (arith, q.room, ap length e)));
    unreturned = q.unreturned;
    still_open = q.still_open;
    room = omega (arith, q.room, ap length e, length-append s.results (value ∷ []));
    error = q.error;
  }

  -- Every goroutine comes to its end before the collector looks at anything.
  finish_workers :
      (due : Bool) (ws : List Worker) (s : Fanout)
      → s.workers ≡ ws
      → IsPending capacity fail_at may_end origin due s
      → (t : Fanout) × (t.workers ≡ [])
        × IsPending capacity fail_at may_end origin (due || any (fails fail_at) ws) t
  finish_workers due [] s e q = (s, e, due_if (λ h. ground arith) q)
  finish_workers due (rejecting ∷ ws) s e q =
      finish_workers due ws (record s { workers = ws; cancelled = true }) refl
        (after_cancel s ws e q)
  finish_workers due (ready i value ∷ ws) s e q = elim (Bool-cases (eq_ℤ (pos i) fail_at)) [
    | inl h ↦
        let rejected : Fanout = record s { workers = rejecting ∷ ws; errs = hand_in s.errs } in
        let (t, none_left, pending) =
          finish_workers true ws (record rejected { workers = ws; cancelled = true }) refl
            (after_cancel rejected ws refl (after_reject s i value ws e h q)) in
        (t, none_left, due_if (λ _. refl) pending)
    | inr h ↦
        let (t, none_left, pending) =
          finish_workers due ws (record s { workers = ws; results = s.results ++ value ∷ [] }) refl
            (after_send s i value ws e h q) in
        (t, none_left, due_if (λ d. ground arith) pending)
  ]

  -- The collector receives all values, finds the channel closed, and returns.
  collect_all :
      (results : List Text) (s : Fanout) (n : ℕ)
      → s.results ≡ results
      → s.returned ≡ none
      → s.closed ≡ true
      → Run capacity fail_at may_end n origin s
      → (t : Fanout) × (m : ℕ) × Run capacity fail_at may_end m origin t
        × (t.errs ≡ s.errs)
        × ((out : List Text) × (t.returned ≡ some (out, none)))
  collect_all [] s n e r c run = (
    record s { returned = some (s.out, none); cancelled = true },
    n + 1,
    next run (see_closed r e c),
    refl,
    (s.out, refl),
  )
  collect_all (v ∷ rest) s n e r c run =
      collect_all rest (record s { results = rest; out = s.out ++ v ∷ [] }) (n + 1) refl r c
        (next run (receive r e))

fails-start_workers :
    (fail_at : ℤ) (i : ℕ) (before after : List Text) (v : Text)
    → eq_ℤ (pos (i + length before)) fail_at ≡ true
    → any (fails fail_at) (start_workers i (before ++ v ∷ after)) ≡ true
unfolding start_workers
fails-start_workers fail_at i [] after v h = ground arith
fails-start_workers fail_at i (w ∷ before) after v h =
    let again = fails-start_workers fail_at (i + 1) before after v (ground arith) in ground arith

start-IsPending :
    (values : List Text) (fail_at : ℤ) (may_end : Bool)
    → IsPending (length values) fail_at may_end (start values) false (start values)
unfolding start
start-IsPending values fail_at may_end = record {
  steps = 0;
  run = here;
  unreturned = refl;
  still_open = refl;
  room = start-HasRoom values;
  error = λ h. absurd (ground arith);
}

-- Whichever value it is whose goroutine rejects, there is a run in which `Fanout` returns without
-- an error although the error was handed in and is still in its channel: the collector's `select`
-- may find the values' channel closed before it looks at the errors'.
pub fanout-silent :
    (before after : List Text) (v : Text) (may_end : Bool)
    → (t : Fanout) × (m : ℕ) × Run
        (length (before ++ v ∷ after))
        (pos (length before))
        may_end
        m
        (start (before ++ v ∷ after))
        t
      × HasError t
      × ((out : List Text) × (t.returned ≡ some (out, none)))
unfolding start
fanout-silent before after v may_end =
    let values = before ++ v ∷ after in
    let fail_at = pos (length before) in
    let (s, none_left, pending) =
      finish_workers false (start_workers 0 values) (start values) refl
        (start-IsPending values fail_at may_end) in
    let (e, handed_in) =
      pending.error (fails-start_workers fail_at 0 before after v (ground arith)) in
    let (t, m, run, kept, returned) =
      collect_all s.results (record s { closed = true }) (pending.steps + 1) refl pending.unreturned
        refl (next pending.run (close_results none_left pending.still_open)) in
    (t, m, run, (e, kept ∙ handed_in), returned)
