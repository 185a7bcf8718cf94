-- ===== src/RateLimit/Bounds.antt =====
-- The tokens of a bucket stay between 0 and its capacity, and how many requests one instant admits.
use adaptive_api_routing_gat.Base.{
  ℕ, zero, suc, ◌+◌, ◌^◌, ◌≤◌, ◌<◌, ◌≡◌, refl, ap, ◌∙◌, true, false, List, [], ◌∷◌, arith,
  if◌then◌else◌, leb,
}
use adaptive_api_routing_gat.Base.Int.{ℤ, pos, negsuc, ltb_ℤ}
use adaptive_api_routing_gat.Base.Time.{Time, since}
use adaptive_api_routing_gat.Base.Float.{Float, IsFloat, ◌≼◌}
use adaptive_api_routing_gat.RateLimit.{
  TokenBucket, new_token_bucket, refill, take_token, allow, tokens, reset,
}

since_self : (t : Time) → since t t ≡ pos 0
unfolding since
since_self t = ground arith

pub data Call : Type 0 where
  call_allow call_tokens call_reset : Time → Call

module _ {R : Type 0} ⦃f : Float R⦄ where
  pub record IsValid (b : TokenBucket R) : Type 0 where
    pub rate_pos : f.le b.rate (f.of_int (pos 0)) ≡ false
    pub nonneg : f.of_int (pos 0) ≼ b.tokens
    pub within : b.tokens ≼ b.burst

  unfoldable pub step : Call → TokenBucket R → TokenBucket R
  step (call_allow now) b = (allow now b).0
  step (call_tokens now) b = (tokens now b).0
  step (call_reset now) b = reset now b

  unfoldable pub run : List Call → TokenBucket R → TokenBucket R
  run [] b = b
  run (c ∷ cs) b = run cs (step c b)

  -- The answers `true` of `k` calls of `Allow`, all at the time `now`.
  unfoldable pub granted : ℕ → Time → TokenBucket R → ℕ
  granted zero now b = 0
  granted (suc k) now b = (if (allow now b).1 then 1 else 0) + granted k now (allow now b).0

  module _ (laws : IsFloat R) where
    one_nonneg : f.of_int (pos 0) ≼ f.of_int (pos 1)
    one_nonneg = laws.of_int-mono 0 1 (omega arith)

    one_pos : f.le (f.of_int (pos 1)) (f.of_int (pos 0)) ≡ false
    one_pos = laws.of_int-le 1 0 (omega arith) (omega arith)

    pub new_token_bucket-IsValid :
        (rate : R) (burst : ℤ) (now : Time) → IsValid (new_token_bucket rate burst now)
    unfolding new_token_bucket
    new_token_bucket-IsValid rate burst now = record {
      rate_pos = ground (arith, one_pos);
      nonneg = capacity_nonneg burst;
      within = laws.le_refl _;
    }
      where
        capacity_nonneg :
            (n : ℤ) → f.of_int (pos 0) ≼ f.of_int (if ltb_ℤ n (pos 1) then pos 1 else n)
        capacity_nonneg (negsuc n) = ground (arith, one_nonneg)
        capacity_nonneg (pos zero) = one_nonneg
        capacity_nonneg (pos (suc n)) =
            ground (arith, laws.of_int-mono 0 (suc n) (omega arith), one_nonneg)

    pub refill-IsValid : (now : Time) (b : TokenBucket R) → IsValid b → IsValid (refill now b)
    unfolding refill
    refill-IsValid now b v =
        let elapsed = f.seconds (since now b.last) in
        let gained = f.mul elapsed b.rate in
        ground (
          arith,
          laws.mul_nonneg elapsed b.rate,
          laws.add_nonneg b.tokens gained,
          laws.le_refl b.burst,
          laws.le_trans (f.of_int (pos 0)) b.tokens b.burst,
        )

    pub take_token-IsValid : (b : TokenBucket R) → IsValid b → IsValid (take_token b).0
    unfolding take_token
    take_token-IsValid b v = ground (
      arith,
      laws.sub_one b.tokens,
      laws.sub_le b.tokens,
      laws.le_trans (f.sub b.tokens (f.of_int (pos 1))) b.tokens b.burst,
    )

    step-IsValid : (c : Call) (b : TokenBucket R) → IsValid b → IsValid (step c b)
    unfolding step allow tokens reset
    step-IsValid (call_allow now) b v = take_token-IsValid (refill now b) (refill-IsValid now b v)
    step-IsValid (call_tokens now) b v = refill-IsValid now b v
    step-IsValid (call_reset now) b v =
        ground (arith, laws.le_refl b.burst, laws.le_trans (f.of_int (pos 0)) b.tokens b.burst)

    run-IsValid : (cs : List Call) (b : TokenBucket R) → IsValid b → IsValid (run cs b)
    unfolding run
    run-IsValid [] b v = v
    run-IsValid (c ∷ cs) b v = run-IsValid cs (step c b) (step-IsValid c b v)

    -- A bucket that `NewTokenBucket` builds from any rate and any burst has, after any calls of
    -- `Allow`, `Tokens` and `Reset` at any times, a positive rate and between 0 and `burst` tokens.
    run-new_token_bucket-IsValid :
        (rate : R) (burst : ℤ) (t : Time) (cs : List Call)
        → IsValid (run cs (new_token_bucket rate burst t))
    run-new_token_bucket-IsValid rate burst t cs =
        run-IsValid cs (new_token_bucket rate burst t) (new_token_bucket-IsValid rate burst t)

    refill-now : (b : TokenBucket R) (now : Time) → b.last ≡ now → refill now b ≡ b
    unfolding refill
    refill-now b now e = rw (e, since_self now, laws.seconds_sign (pos 0))

    allow-none :
        (now : Time) (b : TokenBucket R)
        → b.last ≡ now
        → b.tokens ≡ f.of_int (pos 0)
        → allow now b ≡ (b, false)
    unfolding allow take_token
    allow-none now b e count =
        rw (refill-now b now e, count, laws.of_int-le 1 0 (omega arith) (omega arith))

    allow-some :
        (now : Time) (n : ℕ) (b : TokenBucket R)
        → n < 2 ^ 53
        → b.last ≡ now
        → b.tokens ≡ f.of_int (pos (n + 1))
        → allow now b ≡ (record b { tokens = f.of_int (pos n) }, true)
    unfolding allow take_token
    allow-some now n b fits e count = ground (
      arith,
      refill-now b now e,
      laws.of_int-le 1 (n + 1) (omega arith) (omega arith),
      laws.of_int-sub n fits,
    )

    -- Of `k` calls at the instant at which the bucket was filled to `n` whole tokens, `n` at most
    -- 2 ^ 53, as many are let through as there are tokens and no more.
    pub granted-count :
        (k : ℕ) (now : Time) (n : ℕ) (b : TokenBucket R)
        → n ≤ 2 ^ 53
        → b.last ≡ now
        → b.tokens ≡ f.of_int (pos n)
        → granted k now b ≡ (if leb k n then k else n)
    unfolding granted
    granted-count zero now n b fits e count = ground arith
    granted-count (suc k) now zero b fits e count =
        rw (allow-none now b e count) (ground (arith, granted-count k now 0 b fits e count))
    granted-count (suc k) now (suc n) b fits e count =
        let b' : TokenBucket R = record b { tokens = f.of_int (pos n) } in
        rw (allow-some now n b (omega arith) e (count ∙ ap (λ m. f.of_int (pos m)) (omega arith)))
          (ground (arith, granted-count k now n b' (omega arith) e refl))
