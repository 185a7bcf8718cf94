-- ===== src/Model/HealthChecks/Probes.antt =====
-- When a sequence of probes marks a service as unhealthy.
use adaptive_api_routing_gat.Base.{
  ℕ, ◌+◌, ◌≤◌, ◌<◌, ◌≡◌, refl, Bool, true, false, List, [], ◌∷◌, Text, leb, arith, if◌then◌else◌,
  length,
}
use adaptive_api_routing_gat.Base.Int.{pos, ◌+ℤ◌, wrap, max_int}
use adaptive_api_routing_gat.Base.Time.{Time}
use adaptive_api_routing_gat.Model.HealthChecks.{
  HealthCheck, record_probe, health_healthy, health_unhealthy,
}

-- A probe: its time, whether it succeeded, and its latency.
abbrev pub Probe : Type 0
Probe = Time × Bool × ℕ

unfoldable pub run : List Probe → HealthCheck → HealthCheck
run [] h = h
run ((now, success, ms) ∷ ps) h = run ps (record_probe now success ms h)

-- The failures at the end of a sequence of probes, `c` of them before it.
abbrev pub trailing : ℕ → List Probe → ℕ
trailing c [] = c
trailing c ((_, success, _) ∷ ps) = trailing (if success then 0 else c + 1) ps

-- The status that `c` failures in a row mean.
abbrev pub status_of : ℕ → Text
status_of c = if leb 3 c then health_unhealthy else health_healthy

wrap_count : (c : ℕ) → c < max_int → wrap (pos c +ℤ pos 1) ≡ pos (c + 1)
unfolding wrap ◌+ℤ◌
wrap_count c h = ground arith

record_probe-failed :
    (now : Time) (ms c : ℕ) (h : HealthCheck)
    → c < max_int
    → h.failure_count ≡ pos c
    → h.status ≡ status_of c
    → ((record_probe now false ms h).failure_count ≡ pos (c + 1))
      × ((record_probe now false ms h).status ≡ status_of (c + 1))
unfolding record_probe
record_probe-failed now ms c h fits e s = rw (e, wrap_count c fits) (ground arith)

-- A check that has the status of its count of failures has, whatever the probes, the status
-- unhealthy exactly if three or more of them failed last in a row, those counted before
-- included, and counts these, as long as the failure counter does not overflow.
pub run-status :
    (ps : List Probe) (c : ℕ) (h : HealthCheck)
    → c + length ps ≤ max_int
    → h.failure_count ≡ pos c
    → h.status ≡ status_of c
    → ((run ps h).status ≡ status_of (trailing c ps))
      × ((run ps h).failure_count ≡ pos (trailing c ps))
unfolding run
run-status [] c h fits e s = (s, e)
run-status ((now, true, ms) ∷ ps) c h fits e s =
    run-status ps 0 (record_probe now true ms h) (omega arith) (unfold record_probe in refl)
      (unfold record_probe in refl)
run-status ((now, false, ms) ∷ ps) c h fits e s =
    let (count, status) = record_probe-failed now ms c h (omega arith) e s in
    run-status ps (c + 1) (record_probe now false ms h) (omega arith) count status
