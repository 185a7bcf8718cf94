-- ===== src/Handler/Phases/Probe.antt =====
-- The probe of a breaker, among requests that are served at once.
use adaptive_api_routing_gat.Base.{
  ℕ, zero, suc, ◌+◌, ◌≤◌, ◌≡◌, refl, List, [], ◌∷◌, Option, some, Option-cases, Result-cases,
  Bool-cases, Bool, false, inl, inr, arith, if◌then◌else◌, Text, same, same→eq, lookup, ltb,
}
use adaptive_api_routing_gat.Base.Float.{Float}
use adaptive_api_routing_gat.CircuitBreaker.{CircuitBreaker, open_state}
use adaptive_api_routing_gat.Store.Entities.{get_service}
use adaptive_api_routing_gat.Gateway.{Gateway, allow_service, record_service_result, allow_request}
use adaptive_api_routing_gat.Gateway.Matching.{match_route}
use adaptive_api_routing_gat.Handler.Proxy.{
  breaks_off, Request, Moments, Upstream, caller, record_gateway_log,
}
use adaptive_api_routing_gat.Handler.Proxy.Paths.{upstream_path}
use adaptive_api_routing_gat.Gateway.Probing.{
  IsProbing, IsProbing-le, IsProbing-lookup, allow_service-lookup, record_service_result-lookup,
  allow_request-breakers, allow_service-IsProbing,
}
use adaptive_api_routing_gat.Handler.Phases.{
  Phase, arrived, matched, admitted, within_limit, located, granted, responded, logging, ended,
  advance,
}
use adaptive_api_routing_gat.Handler.Phases.Schedules.{Thread, take_turn, run, phase_at}

-- 1 for a request that the breaker of a service has let through and that has recorded no result.
abbrev passed : (id : Text) → Phase → ℕ
passed id (granted _ _ svc) = if same svc.id id then 1 else 0
passed id (responded _ _ svc _ _) = if same svc.id id then 1 else 0
passed id _ = 0

-- The number of those requests.
unfoldable pub in_flight : (id : Text) → List Thread → ℕ
in_flight id [] = 0
in_flight id (t ∷ ts) = passed id t.phase + in_flight id ts

-- The next turn of a thread records a result of the service.
abbrev records : (id : Text) → Option Phase → Bool
records id (some (responded _ _ svc _ _)) = same svc.id id
records id _ = false

module _ {R : Type 0} ⦃f : Float R⦄ where
  module _ (up : Upstream) (id : Text) where
    -- A turn that records no result of the service.
    advance-IsProbing :
        (r : Request) (m : Moments) (p : Phase) (k : ℕ) (g : Gateway R)
        → records id (some p) ≡ false
        → IsProbing id (passed id p + k) g
        → IsProbing id (passed id (advance up r m p g).1 + k) (advance up r m p g).0
    unfolding advance record_gateway_log
    advance-IsProbing r m arrived k g silent h =
        elim (Option-cases (match_route r.method r.path g.store)) [
          | inl unmatched ↦ rw (advance, unmatched) h
          | inr (route, found) ↦ rw (advance, found) h
        ]
    advance-IsProbing r m (matched route) k g silent h = elim (Result-cases (caller route r m g)) [
      | inl (app_id, known) ↦ rw (advance, known) h
      | inr (_, denied) ↦ rw (advance, denied) h
    ]
    advance-IsProbing r m (admitted route app_id) k g silent h =
        let g' = (allow_request route m.at_limit g).0 in
        let same_entry : lookup id g'.breakers ≡ lookup id g.breakers =
          rw (allow_request-breakers route m.at_limit g) refl in
        let h' : IsProbing id (0 + k) g' = IsProbing-lookup id (0 + k) g g' same_entry h in
        elim (Bool-cases (allow_request route m.at_limit g).1) [
          | inl allowed ↦ rw (advance, allowed) h'
          | inr limited ↦ rw (advance, limited) h'
        ]
    advance-IsProbing r m (within_limit route app_id) k g silent h =
        elim (Result-cases (get_service route.service_id g.store)) [
          | inl (svc, found) ↦ rw (advance, found) h
          | inr (_, missing) ↦ rw (advance, missing) h
        ]
    advance-IsProbing r m (located route app_id svc) k g silent h =
        elim (Bool-cases (same svc.id id)) [
          | inl hit ↦
              let of_service =
                allow_service-IsProbing id m.at_breaker k g
                  (IsProbing-le id k (0 + k) g (omega arith) h) in
              let name : svc.id ≡ id = same→eq svc.id id hit in
              elim (Bool-cases (allow_service id m.at_breaker g).1) [
                | inl granting ↦ rw (advance, name, granting, hit) (rw granting at of_service)
                | inr refusing ↦ rw (advance, name, refusing) (rw refusing at of_service)
              ]
          | inr miss ↦
              let g' = (allow_service svc.id m.at_breaker g).0 in
              let h' : IsProbing id (0 + k) g' =
                IsProbing-lookup id (0 + k) g g'
                  (allow_service-lookup svc.id id m.at_breaker g miss) h in
              elim (Bool-cases (allow_service svc.id m.at_breaker g).1) [
                | inl granting ↦ rw (advance, granting, miss) h'
                | inr refusing ↦ rw (advance, refusing) h'
              ]
        ]
    advance-IsProbing r m (granted route app_id svc) k g silent h =
        elim (Option-cases (up.base_path svc.base_url)) [
          | inl bad ↦ rw (advance, bad) (IsProbing-le id (0 + k) _ g (omega arith) h)
          | inr (base, parsed) ↦
              let exchange = up.answer svc.base_url (upstream_path route base r.path) in
              elim (Bool-cases (breaks_off exchange)) [
                | inl broken ↦
                    rw (advance, parsed, broken) (IsProbing-le id (0 + k) _ g (omega arith) h)
                | inr finished ↦ rw (advance, parsed, finished) h
              ]
        ]
    advance-IsProbing r m (responded route app_id svc reply path) k g silent h =
        let g' = record_service_result svc.id (ltb reply.status 500) m.at_result g in
        let entry =
          record_service_result-lookup svc.id id (ltb reply.status 500) m.at_result g silent in
        IsProbing-le id (0 + k) _ g' (omega arith) (IsProbing-lookup id _ g g' entry h)
    advance-IsProbing r m (logging route app_id status outcome) k g silent h =
        IsProbing-lookup id (0 + k) g (record_gateway_log route app_id r status m g) refl h
    advance-IsProbing r m (ended outcome) k g silent h = h

    take_turn-IsProbing :
        (i : ℕ) (ts : List Thread) (k : ℕ) (g : Gateway R)
        → records id (phase_at i ts) ≡ false
        → IsProbing id (in_flight id ts + k) g
        → IsProbing id (in_flight id (take_turn up i ts g).1 + k) (take_turn up i ts g).0
    unfolding take_turn phase_at in_flight
    take_turn-IsProbing i [] k g silent h = h
    take_turn-IsProbing zero (t ∷ ts) k g silent h =
        let rest = in_flight id ts in
        let (g', p) = advance up t.request t.moments t.phase g in
        let before = IsProbing-le id (passed id t.phase + (rest + k)) _ g (omega arith) h in
        let after = advance-IsProbing t.request t.moments t.phase (rest + k) g silent before in
        IsProbing-le id (passed id p + rest + k) (passed id p + (rest + k)) g' (omega arith) after
    take_turn-IsProbing (suc i) (t ∷ ts) k g silent h =
        let one_more = passed id t.phase in
        let (g', ts') = take_turn up i ts g in
        let before = IsProbing-le id (in_flight id ts + (one_more + k)) _ g (omega arith) h in
        let after = take_turn-IsProbing i ts (one_more + k) g silent before in
        IsProbing-le id (one_more + in_flight id ts' + k) _ g' (omega arith) after

    -- No turn of a schedule records a result of the service.
    unfoldable pub IsSilent : List ℕ → List Thread → Gateway R → Type 0
    IsSilent [] ts g = Unit
    IsSilent (i ∷ schedule) ts g =
        let (g', ts') = take_turn up i ts g in
        (records id (phase_at i ts) ≡ false) × IsSilent schedule ts' g'

    run-IsProbing :
        (schedule : List ℕ) (ts : List Thread) (g : Gateway R)
        → IsSilent schedule ts g
        → IsProbing id (in_flight id ts + 0) g
        → IsProbing id (in_flight id (run up schedule ts g).1 + 0) (run up schedule ts g).0
    unfolding run IsSilent
    run-IsProbing [] ts g silent h = h
    run-IsProbing (i ∷ schedule) ts g (silent, later) h =
        let (g', ts') = take_turn up i ts g in
        run-IsProbing schedule ts' g' later (take_turn-IsProbing i ts 0 g silent h)

    -- If the breaker of a service is open and no request to the service is in flight, then at most
    -- one is, however many requests are served at once and whatever the order of their turns, as
    -- long as no result of the service is recorded: a single request probes it.
    pub run-in_flight :
        (schedule : List ℕ) (ts : List Thread) (g : Gateway R) (b : CircuitBreaker)
        → lookup id g.breakers ≡ some b
        → b.state ≡ open_state
        → in_flight id ts ≡ 0
        → IsSilent schedule ts g
        → in_flight id (run up schedule ts g).1 ≤ 1
    run-in_flight schedule ts g b found state idle silent =
        let start : IsProbing id (in_flight id ts + 0) g = record {
          breaker = b;
          found = found;
          few = inl (state, omega arith);
        } in
        let end = run-IsProbing schedule ts g silent start in
        elim end.few [ inl (_, none_left) ↦ omega arith | inr (_, one_left) ↦ omega arith ]
