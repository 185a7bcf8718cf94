-- ===== src/CircuitBreaker/Cooldown.antt =====
-- What an open or half-open breaker answers, and when.
use adaptive_api_routing_gat.Base.{
  ◌+◌, ◌≤◌, ◌≡◌, refl, true, false, List, [], ◌∷◌, ◌⊎◌, inl, inr, leb, if◌then◌else◌, arith,
}
use adaptive_api_routing_gat.Base.Int.{ℤ, pos, negsuc, pos_part, ◌<ℤ◌, leb_ℤ, IsInt}
use adaptive_api_routing_gat.Base.Time.{Time, since}
use adaptive_api_routing_gat.CircuitBreaker.{
  closed, open_state, half_open, CircuitBreaker, allow, record_success, record_failure, granted,
}
use adaptive_api_routing_gat.CircuitBreaker.Invariant.{IsValid}

-- The saturated difference passes the timeout exactly if that much time has passed.
passed-since :
    (now t : Time) (d : ℤ) → IsInt d → pos 0 <ℤ d → leb_ℤ d (since now t) ≡ leb (t + pos_part d) now
unfolding since
passed-since now t (pos d) fits p = ground arith
passed-since now t (negsuc d) fits p = absurd (omega arith)

-- An open breaker with a valid state grants a call, and then is half open with nothing else
-- changed, exactly from the time on at which its timeout has passed since the last failure. Before
-- that it refuses and stays as it is.
pub allow-open :
    (now : Time) (cb : CircuitBreaker)
    → IsValid cb
    → cb.state ≡ open_state
    → allow now cb ≡ (
        if leb (cb.last_failure + pos_part cb.reset_timeout) now
        then (record cb { state = half_open }, true)
        else (cb, false))
unfolding allow
allow-open now cb v e =
    rw (e, ← passed-since now cb.last_failure cb.reset_timeout v.timeout_int v.timeout_pos)

pub allow-half_open :
    (now : Time) (cb : CircuitBreaker) → cb.state ≡ half_open → allow now cb ≡ (cb, false)
unfolding allow
allow-half_open now cb e = rw e

-- A half-open breaker refuses every call, however long it waits: only a recorded result moves it.
pub granted-half_open :
    (ts : List Time) (cb : CircuitBreaker) → cb.state ≡ half_open → granted ts cb ≡ 0
unfolding granted
granted-half_open [] cb e = refl
granted-half_open (t ∷ ts) cb e =
    rw (allow-half_open t cb e) (omega (arith, granted-half_open ts cb e))

-- An `Allow` of an open breaker leaves it open and refuses, or makes it half open and grants.
pub allow-open_cases :
    (now : Time) (cb : CircuitBreaker)
    → cb.state ≡ open_state
    → (((allow now cb).0.state ≡ open_state) × ((allow now cb).1 ≡ false))
      ⊎ (((allow now cb).0.state ≡ half_open) × ((allow now cb).1 ≡ true))
unfolding allow
allow-open_cases now cb e = ground arith

-- With no result recorded between them, any number of `Allow` calls of an open breaker, at any
-- times, let at most one request through.
granted-open-le : (ts : List Time) (cb : CircuitBreaker) → cb.state ≡ open_state → granted ts cb ≤ 1
unfolding granted
granted-open-le [] cb e = omega arith
granted-open-le (t ∷ ts) cb e = elim (allow-open_cases t cb e) [
  | inl (still, refused) ↦ rw refused (omega (arith, granted-open-le ts (allow t cb).0 still))
  | inr (probe, passed) ↦ rw passed (omega (arith, granted-half_open ts (allow t cb).0 probe))
]

-- For a half-open breaker with a valid state, a failure makes it refuse until a whole timeout from
-- the time of the failure has passed and grant from then on; a success closes it with no failure
-- counted, and the next call is granted.
pub probe_results :
    (t now later : Time) (cb : CircuitBreaker)
    → IsValid cb
    → cb.state ≡ half_open
    → ((allow later (record_failure now cb)).1 ≡ leb (now + pos_part cb.reset_timeout) later)
      × (record_success cb ≡ record cb { state = closed; consecutive_failures = pos 0 })
      × ((allow t (record_success cb)).1 ≡ true)
unfolding allow record_failure record_success
probe_results t now later cb v e = (
  ground (arith, passed-since later now cb.reset_timeout v.timeout_int v.timeout_pos),
  refl,
  refl,
)
