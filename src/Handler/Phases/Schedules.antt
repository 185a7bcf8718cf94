-- ===== src/Handler/Phases/Schedules.antt =====
-- Several requests at once: their goroutines share the state of the service and take turns in any
-- order.
use adaptive_api_routing_gat.Base.{
  Option, none, some, ℕ, zero, suc, List, [], ◌∷◌, Option-cases, Result-cases, inl, inr, ltb,
}
use adaptive_api_routing_gat.Base.Float.{Float, IsFloat}
use adaptive_api_routing_gat.Store.Entities.{get_service}
use adaptive_api_routing_gat.Gateway.{Gateway}
use adaptive_api_routing_gat.Gateway.Matching.{match_route}
use adaptive_api_routing_gat.Gateway.Sound.{
  IsSound, allow_service-IsSound, allow_request-IsSound, record_service_result-IsSound,
}
use adaptive_api_routing_gat.Handler.Proxy.{Request, Moments, Upstream, caller}
use adaptive_api_routing_gat.Handler.Sound.{record_gateway_log-IsSound}
use adaptive_api_routing_gat.Handler.Phases.{
  Phase, arrived, matched, admitted, within_limit, located, granted, responded, logging, ended,
  advance,
}

-- A request that is being served, in a goroutine of its own.
pub record Thread : Type 0 where
  pub request : Request
  pub moments : Moments
  pub phase : Phase

-- The phase of the thread at an index, if there is one.
unfoldable pub phase_at : ℕ → List Thread → Option Phase
phase_at _ [] = none
phase_at zero (t ∷ ts) = some t.phase
phase_at (suc i) (t ∷ ts) = phase_at i ts

module _ {R : Type 0} ⦃f : Float R⦄ (up : Upstream) where
  -- The thread at an index takes one turn.
  unfoldable pub take_turn : ℕ → List Thread → Gateway R → Gateway R × List Thread
  take_turn _ [] g = (g, [])
  take_turn zero (t ∷ ts) g =
      let (g', p) = advance up t.request t.moments t.phase g in (g', record t { phase = p } ∷ ts)
  take_turn (suc i) (t ∷ ts) g = let (g', ts') = take_turn i ts g in (g', t ∷ ts')

  -- A schedule names the thread of each turn.
  unfoldable pub run : List ℕ → List Thread → Gateway R → Gateway R × List Thread
  run [] ts g = (g, ts)
  run (i ∷ schedule) ts g = let (g', ts') = take_turn i ts g in run schedule ts' g'

  module _ (laws : IsFloat R) where
    advance-IsSound :
        (r : Request) (m : Moments) (p : Phase) (g : Gateway R)
        → IsSound g
        → IsSound (advance up r m p g).0
    unfolding advance
    advance-IsSound r m arrived g h = elim (Option-cases (match_route r.method r.path g.store)) [
      | inl unmatched ↦ rw (advance, unmatched) h
      | inr (route, found) ↦ rw (advance, found) h
    ]
    advance-IsSound r m (matched route) g h = elim (Result-cases (caller route r m g)) [
      | inl (app_id, known) ↦ rw (advance, known) h
      | inr (_, denied) ↦ rw (advance, denied) h
    ]
    advance-IsSound r m (admitted route app_id) g h =
        allow_request-IsSound laws route m.at_limit g h
    advance-IsSound r m (within_limit route app_id) g h =
        elim (Result-cases (get_service route.service_id g.store)) [
          | inl (svc, found) ↦ rw (advance, found) h
          | inr (_, missing) ↦ rw (advance, missing) h
        ]
    advance-IsSound r m (located route app_id svc) g h =
        allow_service-IsSound svc.id m.at_breaker g h
    advance-IsSound r m (granted route app_id svc) g h =
        elim (Option-cases (up.base_path svc.base_url)) [
          | inl bad ↦ rw (advance, bad) h
          | inr (base, parsed) ↦ rw (advance, parsed) h
        ]
    advance-IsSound r m (responded route app_id svc reply path) g h =
        record_service_result-IsSound svc.id (ltb reply.status 500) m.at_result g h
    advance-IsSound r m (logging route app_id status outcome) g h =
        record_gateway_log-IsSound up r m route app_id status g h
    advance-IsSound r m (ended outcome) g h = h

    take_turn-IsSound :
        (i : ℕ) (ts : List Thread) (g : Gateway R) → IsSound g → IsSound (take_turn i ts g).0
    unfolding take_turn
    take_turn-IsSound i [] g h = h
    take_turn-IsSound zero (t ∷ ts) g h = advance-IsSound t.request t.moments t.phase g h
    take_turn-IsSound (suc i) (t ∷ ts) g h = take_turn-IsSound i ts g h

    -- Whatever the order of their turns, requests keep the state of the service sound.
    pub run-IsSound :
        (schedule : List ℕ) (ts : List Thread) (g : Gateway R)
        → IsSound g
        → IsSound (run schedule ts g).0
    unfolding run
    run-IsSound [] ts g h = h
    run-IsSound (i ∷ schedule) ts g h =
        let (g', ts') = take_turn i ts g in run-IsSound schedule ts' g' (take_turn-IsSound i ts g h)
