-- ===== src/Process/Sound.antt =====
-- The state of the service in a running process.
use adaptive_api_routing_gat.Base.{ℕ, Text, Option, lookup, arith}
use adaptive_api_routing_gat.Base.Int.{ℤ}
use adaptive_api_routing_gat.Base.Float.{Float, IsFloat}
use adaptive_api_routing_gat.Config.{Config}
use adaptive_api_routing_gat.Store.Sound.{new_memory_store-IsSound}
use adaptive_api_routing_gat.Store.Sound as Stored
use adaptive_api_routing_gat.Gateway.{new_gateway}
use adaptive_api_routing_gat.Gateway.Sound.{IsSound, with_store-IsSound}
use adaptive_api_routing_gat.Gateway.Admin.Checker
use adaptive_api_routing_gat.Gateway.Admin.Checker.{
  Checker, context_ends, tick_arrives, probe, round_ends, see_done,
}
use adaptive_api_routing_gat.Gateway.Admin.Health.{Network}
use adaptive_api_routing_gat.Gateway.Admin.Sound.Probes.{check_service-IsSound}
use adaptive_api_routing_gat.App.{new_app}
use adaptive_api_routing_gat.Handler.Proxy.{Upstream}
use adaptive_api_routing_gat.Handler.Server.Endpoints.{Mux, System}
use adaptive_api_routing_gat.Handler.Server.Sound.{serve-IsSound}
use adaptive_api_routing_gat.Process.{
  Process, start, Step, announce, listen, listen_fails, answer, check, signal, cancel, close,
  finish, Run, here, next,
}

checked-IsSound :
    {network : Network} {c d : Checker}
    → Checker.Step network c d
    → Stored.IsSound c.store
    → Stored.IsSound d.store
checked-IsSound context_ends h = h
checked-IsSound (tick_arrives e) h = h
checked-IsSound {network} {c} (probe {v = v} fresh_id now e) h =
    check_service-IsSound network fresh_id now v c.store h
checked-IsSound (round_ends e) h = h
checked-IsSound (see_done e ended) h = h

module _ {R : Type 0} ⦃f : Float R⦄ where
  start-IsSound :
      (getenv : Text → Text) (atoi : Text → Option ℤ) (print_int print_duration : ℤ → Text)
      → IsSound {R = R} (start getenv atoi print_int print_duration).server.service
  unfolding start new_app new_gateway lookup
  start-IsSound getenv atoi print_int print_duration = record {
    store = new_memory_store-IsSound;
    breakers = λ k b e. ground arith;
    buckets = λ k b e. ground arith;
  }

  module _ (laws : IsFloat R) (mux : Mux) (sys : System) (up : Upstream) (cfg : Config) where
    step-IsSound :
        {p q : Process R}
        → Step mux sys up cfg p q
        → IsSound p.server.service
        → IsSound q.server.service
    step-IsSound (announce e e') h = h
    step-IsSound (listen e e') h = h
    step-IsSound (listen_fails text e e' e'') h = h
    step-IsSound {p} (answer r draws m printed e e' e'') h =
        serve-IsSound laws mux sys up cfg r draws m printed p.server h
    step-IsSound {p} (check {c = c} e s kept) h =
        with_store-IsSound c.store p.server.service (checked-IsSound s h.store) h
    step-IsSound (signal e e') h = h
    step-IsSound (cancel e e') h = h
    step-IsSound (close e e') h = h
    step-IsSound (finish failure e e' e'') h = h

    run-IsSound :
        {n : ℕ} {p q : Process R}
        → Run mux sys up cfg n p q
        → IsSound p.server.service
        → IsSound q.server.service
    run-IsSound here h = h
    run-IsSound (next before last) h = step-IsSound last (run-IsSound before h)

    -- In every state that a process reaches from its start, by any requests, probes and steps of its
    -- goroutines in any order, each entity is stored once and under its own ID, no two API keys have
    -- the same text and each is active or disabled, each breaker has a positive threshold and timeout
    -- and, while closed, fewer failures than the threshold, and each bucket has a positive rate and
    -- between 0 and `burst` tokens.
    pub run-start-IsSound :
        (getenv : Text → Text) (atoi : Text → Option ℤ) (print_int print_duration : ℤ → Text)
        {n : ℕ} {p : Process R}
        → Run mux sys up cfg n (start getenv atoi print_int print_duration) p
        → IsSound p.server.service
    run-start-IsSound getenv atoi print_int print_duration run =
        run-IsSound run (start-IsSound getenv atoi print_int print_duration)
