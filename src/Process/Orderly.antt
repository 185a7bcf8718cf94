-- ===== src/Process/Orderly.antt =====
-- How a process ends: what happened before, and that it can.
use adaptive_api_routing_gat.Base.{
  ℕ, zero, suc, ◌≡◌, ◌≢◌, refl, Bool, true, false, Option, none, some, Text, arith,
}
use adaptive_api_routing_gat.Base.Int.{ℤ}
use adaptive_api_routing_gat.Base.Float.{Float}
use adaptive_api_routing_gat.Config.{Config}
use adaptive_api_routing_gat.Gateway.Admin.Checker
use adaptive_api_routing_gat.Gateway.Admin.Checker.{
  Checker, Mode, selecting, probing, returned, context_ends, tick_arrives, probe, round_ends,
  see_done,
}
use adaptive_api_routing_gat.Gateway.Admin.Health.{Network}
use adaptive_api_routing_gat.Handler.Proxy.{Upstream}
use adaptive_api_routing_gat.Handler.Server.Endpoints.{Mux, System}
use adaptive_api_routing_gat.Process.{
  Stage, shutting_down, Listener, starting, closed, Process, start, Step, announce, listen,
  listen_fails, answer, check, signal, cancel, close, finish, Run, here, next,
}

abbrev pub is_shutting_down : Stage → Bool
is_shutting_down shutting_down = true
is_shutting_down _ = false

-- The health checker returns only once its context is cancelled.
abbrev pub IsTold : Mode → Bool → Type 0
IsTold returned cancelled = cancelled ≡ true
IsTold _ cancelled = Unit

-- The server is closed only in `Shutdown`.
abbrev pub IsInShutdown : Listener → Stage → Type 0
IsInShutdown closed stage = stage ≡ shutting_down
IsInShutdown _ stage = Unit

-- The status is 0 behind a `Shutdown`, and 1 if the goroutine that listens met an error before.
abbrev pub IsEnd : Option ℕ → Listener → Type 0
IsEnd none listener = Unit
IsEnd (some zero) listener = listener ≡ closed
IsEnd (some (suc zero)) listener = (listener ≢ starting) × (listener ≢ closed)
IsEnd (some (suc (suc _))) listener = ⊥

pub record IsOrderly {R : Type 0} (p : Process R) : Type 0 where
  pub cancelled : p.cancelled ≡ is_shutting_down p.stage
  pub checker : IsTold p.checker p.cancelled
  pub listener : IsInShutdown p.listener p.stage
  pub exit_status : IsEnd p.exit_status p.listener

checked-IsTold :
    {network : Network} {c d : Checker}
    → Checker.Step network c d
    → IsTold c.mode c.cancelled
    → d.cancelled ≡ c.cancelled
    → IsTold d.mode c.cancelled
checked-IsTold context_ends h e = h
checked-IsTold (tick_arrives at) h e = tt
checked-IsTold (probe fresh_id now at) h e = tt
checked-IsTold (round_ends at) h e = tt
checked-IsTold (see_done at done) h e = done

module _ {R : Type 0} ⦃f : Float R⦄ where
  start-IsOrderly :
      (getenv : Text → Text) (atoi : Text → Option ℤ) (print_int print_duration : ℤ → Text)
      → IsOrderly {R = R} (start getenv atoi print_int print_duration)
  unfolding start
  start-IsOrderly getenv atoi print_int print_duration = record {
    cancelled = refl;
    checker = tt;
    listener = tt;
    exit_status = tt;
  }

  module _ (mux : Mux) (sys : System) (up : Upstream) (cfg : Config) where
    step-IsOrderly : {p q : Process R} → Step mux sys up cfg p q → IsOrderly p → IsOrderly q
    step-IsOrderly (announce e e') h = ground arith
    step-IsOrderly (listen e e') h = ground arith
    step-IsOrderly (listen_fails text e e' e'') h = ground arith
    step-IsOrderly (answer r draws m printed e e' e'') h = ground arith
    step-IsOrderly (check e s kept) h = let told = checked-IsTold s h.checker kept in ground arith
    step-IsOrderly (signal e e') h = ground arith
    step-IsOrderly (cancel e e') h = ground arith
    step-IsOrderly (close e e') h = ground arith
    step-IsOrderly (finish failure e e' e'') h = ground arith

    run-IsOrderly : {n : ℕ} {p q : Process R} → Run mux sys up cfg n p q → IsOrderly p → IsOrderly q
    run-IsOrderly here h = h
    run-IsOrderly (next before last) h = step-IsOrderly last (run-IsOrderly before h)

    -- In every state that a process reaches from its start, the context of the health checker is
    -- cancelled exactly if the process is in `Shutdown` or behind it, the health checker has
    -- returned only if its context is cancelled, the server is closed only in `Shutdown`, and a
    -- process that ended has the status 0 with its server closed, or the status 1 while its server
    -- was not closed.
    pub run-start-IsOrderly :
        (getenv : Text → Text) (atoi : Text → Option ℤ) (print_int print_duration : ℤ → Text)
        {n : ℕ} {p : Process R}
        → Run mux sys up cfg n (start getenv atoi print_int print_duration) p
        → IsOrderly p
    run-start-IsOrderly getenv atoi print_int print_duration run =
        run-IsOrderly run (start-IsOrderly getenv atoi print_int print_duration)
