-- ===== src/Flow/Fanout/Delivery.antt =====
-- What `Fanout` returns.
use adaptive_api_routing_gat.Base.{
  ℕ, ◌+◌, ◌≤◌, ◌≡◌, ◌≢◌, ◌⊎◌, inl, inr, refl, sym, ap, ◌∙◌, Bool, true, false, Option, none, some,
  some-injective, none-ne-some, Text, List, [], ◌∷◌, ◌++◌, length, length-append, count_of, All,
  arith, if◌then◌else◌,
}
use adaptive_api_routing_gat.Base.Int.{ℤ, pos, eq_ℤ}
use adaptive_api_routing_gat.Flow.Fanout.{
  Worker, ready, rejecting, FanoutError, Fanout, start_workers, start, Step, reject, cancel, send,
  give_up, context_ends, close_results, receive, see_closed, see_error, see_cancelled,
}
use adaptive_api_routing_gat.Flow.Fanout.Runs.{Run, here, next}

-- How many of the goroutines that are left hold a value that passes a test.
abbrev pub held : (Text → Bool) → List Worker → ℕ
held p [] = 0
held p (ready i value ∷ ws) = (if p value then 1 else 0) + held p ws
held p (rejecting ∷ ws) = held p ws

held-append : (p : Text → Bool) (xs ys : List Worker) → held p (xs ++ ys) ≡ held p xs + held p ys
held-append p [] ys = omega arith
held-append p (ready i value ∷ xs) ys = omega (arith, held-append p xs ys)
held-append p (rejecting ∷ xs) ys = held-append p xs ys

pub held-start_workers :
    (p : Text → Bool) (i : ℕ) (vs : List Text) → held p (start_workers i vs) ≡ count_of p vs
unfolding start_workers
held-start_workers p i [] = refl
held-start_workers p i (v ∷ vs) = omega (arith, held-start_workers p (i + 1) vs)

count_of-append :
    (p : Text → Bool) (xs ys : List Text) → count_of p (xs ++ ys) ≡ count_of p xs + count_of p ys
count_of-append p [] ys = omega arith
count_of-append p (x ∷ xs) ys = omega (arith, count_of-append p xs ys)

-- The values that are collected, in the channel or with a goroutine.
abbrev pub present : (Text → Bool) → Fanout → ℕ
present p s = count_of p s.out + count_of p s.results + held p s.workers

module _ {capacity : ℕ} {fail_at : ℤ} {may_end : Bool} (p : Text → Bool) where
  pub Step-present : {s t : Fanout} → Step capacity fail_at may_end s t → present p t ≤ present p s
  Step-present (reject i value xs ys e h) =
      let w = held-append p xs (ready i value ∷ ys) in
      let w' = held-append p xs (rejecting ∷ ys) in omega (arith, ap (held p) e)
  Step-present (cancel xs ys e) =
      let w = held-append p xs (rejecting ∷ ys) in
      let w' = held-append p xs ys in omega (arith, ap (held p) e)
  Step-present {s = s} (send i value xs ys e h room) =
      let w = held-append p xs (ready i value ∷ ys) in
      let w' = held-append p xs ys in
      omega (arith, ap (held p) e, count_of-append p s.results (value ∷ []))
  Step-present (give_up i value xs ys e h c) =
      let w = held-append p xs (ready i value ∷ ys) in
      let w' = held-append p xs ys in omega (arith, ap (held p) e)
  Step-present (context_ends m c) = omega arith
  Step-present (close_results w c) = omega arith
  Step-present {s = s} (receive {value = value} r e) =
      omega (arith, ap (count_of p) e, count_of-append p s.out (value ∷ []))
  Step-present (see_closed r e c) = omega arith
  Step-present (see_error r e) = omega arith
  Step-present (see_cancelled r c) = omega arith

-- A goroutine that will not reject.
abbrev Passes : ℤ → Worker → Type 0
Passes fail_at (ready i value) = eq_ℤ (pos i) fail_at ≡ false
Passes fail_at rejecting = ⊥

module _ {A : Type 0} (P : A → Type 0) where
  All-middle : {x : A} (xs ys : List A) → All P (xs ++ x ∷ ys) → P x × All P (xs ++ ys)
  All-middle [] ys h = h
  All-middle (z ∷ xs) ys (h, hs) = let (a, b) = All-middle xs ys hs in (a, (h, b))

-- No value was lost: none has been rejected, the context is not cancelled before the return, and what is returned,
-- if anything is, has all values.
record IsLossless (values : List Text) (fail_at : ℤ) (s : Fanout) : Type 0 where
  passes : All (Passes fail_at) s.workers
  uncancelled : (s.cancelled ≡ false) ⊎ ((s.closed ≡ true) × (s.returned ≢ none))
  no_errors : s.errs ≡ none
  counted : (p : Text → Bool) → present p s ≡ count_of p values
  finished : s.closed ≡ true → s.workers ≡ []
  delivered :
      (out : List Text) (e : Option FanoutError)
      → s.returned ≡ some (out, e)
      → (e ≡ none) × ((p : Text → Bool) → count_of p out ≡ count_of p values)

true-ne-false : true ≡ false → ⊥
true-ne-false e = cc

module _ {values : List Text} {fail_at : ℤ} where
  send-IsLossless :
      (s : Fanout) (i : ℕ) (value : Text) (xs ys : List Worker)
      → s.workers ≡ xs ++ ready i value ∷ ys
      → IsLossless values fail_at s
      → IsLossless values fail_at
          (record s { workers = xs ++ ys; results = s.results ++ value ∷ [] })
  send-IsLossless s i value xs ys e l = record {
    passes = (All-middle (Passes fail_at) xs ys (rw e at l.passes)).1;
    uncancelled = l.uncancelled;
    no_errors = l.no_errors;
    counted = λ p.
        let w = held-append p xs (ready i value ∷ ys) in
        let w' = held-append p xs ys in
        omega (arith, l.counted p, ap (held p) e, count_of-append p s.results (value ∷ []));
    finished = λ c.
        absurd
          (omega (arith, ap length (sym e ∙ l.finished c), length-append xs (ready i value ∷ ys)));
    delivered = l.delivered;
  }

  Step-IsLossless :
      {capacity : ℕ} {s t : Fanout}
      → Step capacity fail_at false s t
      → IsLossless values fail_at s
      → IsLossless values fail_at t
  Step-IsLossless (reject i value xs ys e h) l =
      let passes = (All-middle (Passes fail_at) xs ys (rw e at l.passes)).0 in absurd (ground arith)
  Step-IsLossless (cancel xs ys e) l =
      absurd (All-middle (Passes fail_at) xs ys (rw e at l.passes)).0
  Step-IsLossless {s = s} (send i value xs ys e h room) l = send-IsLossless s i value xs ys e l
  Step-IsLossless (give_up i value xs ys e h c) l = elim l.uncancelled [
    | inl calm ↦ absurd (true-ne-false (sym c ∙ calm))
    | inr (closed, _) ↦ absurd (
        omega (arith, ap length (sym e ∙ l.finished closed), length-append xs (ready i value ∷ ys)))
  ]
  Step-IsLossless (context_ends m c) l = absurd (true-ne-false (sym m))
  Step-IsLossless (close_results w c) l = record {
    passes = l.passes;
    uncancelled = elim l.uncancelled [ inl calm ↦ inl calm | inr (_, over) ↦ inr (refl, over) ];
    no_errors = l.no_errors;
    counted = l.counted;
    finished = λ c'. w;
    delivered = l.delivered;
  }
  Step-IsLossless {s = s} (receive {value = value} r e) l = record {
    passes = l.passes;
    uncancelled = l.uncancelled;
    no_errors = l.no_errors;
    counted =
        λ p. omega (arith, l.counted p, ap (count_of p) e, count_of-append p s.out (value ∷ []));
    finished = l.finished;
    delivered = l.delivered;
  }
  Step-IsLossless {s = s} (see_closed r e c) l = record {
    passes = l.passes;
    uncancelled = inr (c, λ p. none-ne-some (sym p));
    no_errors = l.no_errors;
    counted = l.counted;
    finished = l.finished;
    delivered = λ out x q.
        let same_pair = some-injective q in
        let same_out : s.out ≡ out = ap (λ (o : List Text × Option FanoutError). o.0) same_pair in
        (
          sym (ap (λ (o : List Text × Option FanoutError). o.1) same_pair),
          λ p. omega (
            arith,
            l.counted p,
            ap (count_of p) e,
            ap (held p) (l.finished c),
            ap (count_of p) same_out,
          ),
        );
  }
  Step-IsLossless (see_error r e) l = absurd (none-ne-some (sym l.no_errors ∙ e))
  Step-IsLossless (see_cancelled r c) l = elim l.uncancelled [
    | inl calm ↦ absurd (true-ne-false (sym c ∙ calm))
    | inr (_, over) ↦ absurd (over r)
  ]

  Run-IsLossless :
      {capacity n : ℕ} {s t : Fanout}
      → Run capacity fail_at false n s t
      → IsLossless values fail_at s
      → IsLossless values fail_at t
  Run-IsLossless here l = l
  Run-IsLossless (next run step) l = Step-IsLossless step (Run-IsLossless run l)

-- No index of a value, from `i` on, is the one that fails.
abbrev pub NoneFails : ℤ → ℕ → List Text → Type 0
NoneFails fail_at i [] = Unit
NoneFails fail_at i (v ∷ vs) = (eq_ℤ (pos i) fail_at ≡ false) × NoneFails fail_at (i + 1) vs

start_workers-Passes :
    (fail_at : ℤ) (i : ℕ) (vs : List Text)
    → NoneFails fail_at i vs
    → All (Passes fail_at) (start_workers i vs)
unfolding start_workers
start_workers-Passes fail_at i [] h = tt
start_workers-Passes fail_at i (v ∷ vs) (h, hs) = (h, start_workers-Passes fail_at (i + 1) vs hs)

start-IsLossless :
    (values : List Text) (fail_at : ℤ)
    → NoneFails fail_at 0 values
    → IsLossless values fail_at (start values)
unfolding start
start-IsLossless values fail_at h = record {
  passes = start_workers-Passes fail_at 0 values h;
  uncancelled = inl refl;
  no_errors = refl;
  counted = λ p. omega (arith, held-start_workers p 0 values);
  finished = λ c. absurd (true-ne-false (sym c));
  delivered = λ out e q. absurd (none-ne-some q);
}

-- If the index that fails is none of the values' and the caller's context does not end, whatever
-- order the goroutines run in, what is returned has no error and holds as many texts that pass a
-- test as the values do, for every test: the values in some order.
pub fanout-delivers :
    (values : List Text) (fail_at : ℤ) {n : ℕ} {s : Fanout}
    → NoneFails fail_at 0 values
    → Run (length values) fail_at false n (start values) s
    → (out : List Text) (e : Option FanoutError) (p : Text → Bool) → s.returned ≡ some (out, e)
    → (e ≡ none) × (count_of p out ≡ count_of p values)
fanout-delivers values fail_at none_fails run out e p returned =
    let lossless = Run-IsLossless run (start-IsLossless values fail_at none_fails) in
    let (no_error, counted) = lossless.delivered out e returned in (no_error, counted p)
