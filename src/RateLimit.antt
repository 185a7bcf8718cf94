-- ===== src/RateLimit.antt =====
-- internal/ratelimit/token_bucket.go: the token bucket. The mutex makes each method one step; the
-- time that a method reads is its argument. Numbers of type `float64` are of an abstract type.
pub mod Bounds
use adaptive_api_routing_gat.Base.{Bool, true, false, if◌then◌else◌}
use adaptive_api_routing_gat.Base.Int.{ℤ, pos, ltb_ℤ}
use adaptive_api_routing_gat.Base.Time.{Time, since}
use adaptive_api_routing_gat.Base.Float.{Float}

pub record TokenBucket (R : Type 0) : Type 0 where
  pub rate : R
  pub burst : R
  pub tokens : R
  pub last : Time

module _ {R : Type 0} ⦃f : Float R⦄ where
  unfoldable pub new_token_bucket : R → ℤ → Time → TokenBucket R
  new_token_bucket rate burst now =
      let burst' = if ltb_ℤ burst (pos 1) then pos 1 else burst in
      record {
        rate = if f.le rate (f.of_int (pos 0)) then f.of_int (pos 1) else rate;
        burst = f.of_int burst';
        tokens = f.of_int burst';
        last = now;
      }

  -- The tokens after the time that passed, at most `burst`: `b.tokens > b.burst` is tested.
  abbrev pub refilled : TokenBucket R → R → R
  refilled b elapsed =
      let tokens = f.add b.tokens (f.mul elapsed b.rate) in
      if f.le tokens b.burst then tokens else b.burst

  unfoldable pub refill : Time → TokenBucket R → TokenBucket R
  refill now b =
      let elapsed = f.seconds (since now b.last) in
      if f.le elapsed (f.of_int (pos 0))
      then b
      else record b { tokens = refilled b elapsed; last = now }

  unfoldable pub take_token : TokenBucket R → TokenBucket R × Bool
  take_token b =
      if f.le (f.of_int (pos 1)) b.tokens
      then (record b { tokens = f.sub b.tokens (f.of_int (pos 1)) }, true)
      else (b, false)

  unfoldable pub allow : Time → TokenBucket R → TokenBucket R × Bool
  unfolding refill take_token
  allow now b = take_token (refill now b)

  unfoldable pub tokens : Time → TokenBucket R → TokenBucket R × R
  unfolding refill
  tokens now b = let b' = refill now b in (b', b'.tokens)

  unfoldable pub reset : Time → TokenBucket R → TokenBucket R
  reset now b = record b { tokens = b.burst; last = now }
