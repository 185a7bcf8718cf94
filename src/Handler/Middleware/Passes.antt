-- ===== src/Handler/Middleware/Passes.antt =====
-- How many requests the middleware lets through.
use adaptive_api_routing_gat.Base.{
  ℕ, [], zero, suc, ◌+◌, ◌^◌, ◌≤◌, ◌≡◌, refl, ap, ◌∙◌, leb, if◌then◌else◌, arith, Bool-cases, inl,
  inr,
}
use adaptive_api_routing_gat.Base.Int.{pos}
use adaptive_api_routing_gat.Base.Time.{Time}
use adaptive_api_routing_gat.Base.Float.{Float, IsFloat}
use adaptive_api_routing_gat.RateLimit
use adaptive_api_routing_gat.RateLimit.{TokenBucket, new_token_bucket}
use adaptive_api_routing_gat.RateLimit.Bounds.{granted, granted-count}
use adaptive_api_routing_gat.Handler.Replies.{Reply}
use adaptive_api_routing_gat.Handler.Middleware.{HttpHandler, rate_limit}

-- A handler that counts its calls.
abbrev pub counting : HttpHandler ℕ Reply
counting n = (n + 1, record { status = 200; code = 0; message = [] })

module _ {R : Type 0} ⦃f : Float R⦄ where
  -- The calls of the handler after `k` requests at one time.
  unfoldable pub passed : ℕ → Time → TokenBucket R → ℕ → ℕ
  passed zero now b n = n
  passed (suc k) now b n =
      let state = (rate_limit (λ reply. reply) now counting (b, n)).0 in
      passed k now state.0 state.1

  passed-granted :
      (k : ℕ) (now : Time) (b : TokenBucket R) (n : ℕ) → passed k now b n ≡ n + granted k now b
  unfolding passed granted rate_limit
  passed-granted zero now b n = omega arith
  passed-granted (suc k) now b n = elim (Bool-cases (RateLimit.allow now b).1) [
    | inl let_through ↦ ground (arith, passed-granted k now (RateLimit.allow now b).0 (n + 1))
    | inr refused ↦ ground (arith, passed-granted k now (RateLimit.allow now b).0 n)
  ]

  module _ (laws : IsFloat R) where
    -- Of `k` requests at the time at which the middleware was set up with a burst of `n`, between 1
    -- and 2 ^ 53, the handler behind it is called for `n` at most, and for all if `k` is no more.
    pub passed-count :
        (k : ℕ) (now : Time) (rate : R) (n : ℕ)
        → 1 ≤ n
        → n ≤ 2 ^ 53
        → passed k now (new_token_bucket rate (pos n) now) 0 ≡ (if leb k n then k else n)
    unfolding new_token_bucket
    passed-count k now rate n one fits =
        let b = new_token_bucket rate (pos n) now in
        passed-granted k now b 0
        ∙ omega
            (arith, granted-count laws k now n b fits refl (ap (λ z. f.of_int z) (ground arith)))
