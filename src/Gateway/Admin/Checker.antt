-- ===== src/Gateway/Admin/Checker.antt =====
-- The goroutine of `StartHealthChecker` in internal/service/health_check_service.go, as a step
-- relation without its log lines. The probe of one service is one step; what other goroutines do to
-- the store between two steps is left to the relation of the process.
use adaptive_api_routing_gat.Base.{
  ℕ, suc, ◌*◌, ◌≡◌, refl, ap, ◌∙◌, Bool, true, Text, List, [], ◌∷◌, length, if◌then◌else◌, arith,
}
use adaptive_api_routing_gat.Base.Int.{ℤ, pos, leb_ℤ}
use adaptive_api_routing_gat.Base.Time.{Time, second}
use adaptive_api_routing_gat.Model.Services.{Service}
use adaptive_api_routing_gat.Store.Memory.{MemoryStore}
use adaptive_api_routing_gat.Store.Entities.{list_services}
use adaptive_api_routing_gat.Store.Health.{
  create_health_check, assign_health_check, update_health_check,
}
use adaptive_api_routing_gat.Gateway.Admin.Health.{
  Network, health_check_for, probe_service, check_service, tick,
}

-- `if interval <= 0 { interval = 30 * time.Second }`
unfoldable pub check_interval : ℤ → ℤ
check_interval interval = if leb_ℤ interval (pos 0) then pos (30 * second) else interval

-- Before the `select`, in the round of a tick with the services that are left, or returned.
pub data Mode : Type 0 where
  selecting : Mode
  probing : (left : List Service) → Mode
  returned : Mode

pub record Checker : Type 0 where
  pub store : MemoryStore
  pub cancelled : Bool
  pub mode : Mode

-- A step of the goroutine, or the end of its context. A probe draws an identifier and reads the
-- time.
pub data Step (network : Network) : Checker → Checker → Type 0 where
  context_ends : {c : Checker} → Step network c (record c { cancelled = true })
  tick_arrives :
      {c : Checker}
      → c.mode ≡ selecting
      → Step network c (record c { mode = probing (list_services c.store) })
  probe :
      {c : Checker} {v : Service} {vs : List Service} (fresh_id : Text) (now : Time)
      → c.mode ≡ probing (v ∷ vs)
      → Step network c
          (record c { store = check_service network fresh_id now v c.store; mode = probing vs })
  round_ends : {c : Checker} → c.mode ≡ probing [] → Step network c (record c { mode = selecting })
  see_done :
      {c : Checker}
      → c.mode ≡ selecting
      → c.cancelled ≡ true
      → Step network c (record c { mode = returned })

module _ (network : Network) where
  -- A run of some number of steps.
  pub data Run : ℕ → Checker → Checker → Type 0 where
    here : {c : Checker} → Run 0 c c
    next : {n : ℕ} {c d e : Checker} → Step network c d → Run n d e → Run (suc n) c e

-- The services that are left of a round.
abbrev pub left_of : Mode → List Service
left_of (probing vs) = vs
left_of _ = []

-- The steps to the return of the goroutine.
abbrev pub steps_left : Mode → ℕ
steps_left selecting = 1
steps_left (probing vs) = suc (suc (length vs))
steps_left returned = 0

module _ (network : Network) (fresh : Text → Text) (now : Time) where
  abbrev ended : MemoryStore → Mode → Checker
  ended s m = record { store = s; cancelled = true; mode = m }

  round-tick :
      (vs : List Service) (s : MemoryStore)
      → Run network
          (suc (suc (length vs)))
          (ended s (probing vs))
          (ended (tick network fresh now vs s) returned)
  unfolding tick
  round-tick [] s = next (round_ends refl) (next (see_done refl refl) here)
  round-tick (v ∷ vs) s =
      next (probe (fresh v.id) now refl)
        (round-tick vs (check_service network (fresh v.id) now v s))

  -- A health checker whose context has ended can finish its round, if it is in one, and return, in
  -- at most two steps more than there are services left, and the store is then what a tick makes of
  -- these services.
  checker-tick :
      (m : Mode) (s : MemoryStore)
      → Run network
          (steps_left m)
          (record { store = s; cancelled = true; mode = m })
          (record {
            store = tick network fresh now (left_of m) s;
            cancelled = true;
            mode = returned;
          })
  unfolding tick
  checker-tick selecting s = next (see_done refl refl) here
  checker-tick (probing vs) s = round-tick vs s
  checker-tick returned s = here

module _ (network : Network) where
  check_service-kept :
      (fresh_id : Text) (now : Time) (v : Service) (s : MemoryStore)
      → check_service network fresh_id now v s
        ≡ record s { health_checks = (check_service network fresh_id now v s).health_checks }
  unfolding check_service probe_service health_check_for create_health_check assign_health_check
      update_health_check
  check_service-kept fresh_id now v s = ground arith

  -- No step of the health checker changes a table other than that of the health checks.
  tables_kept :
      (c d : Checker)
      → Step network c d
      → d.store ≡ record c.store { health_checks = d.store.health_checks }
  tables_kept c d context_ends = refl
  tables_kept c d (tick_arrives e) = refl
  tables_kept c d (probe {v = v} fresh_id now e) = check_service-kept fresh_id now v c.store
  tables_kept c d (round_ends e) = refl
  tables_kept c d (see_done e ended) = refl

  kept_trans :
      (s t u : MemoryStore)
      → t ≡ record s { health_checks = t.health_checks }
      → u ≡ record t { health_checks = u.health_checks }
      → u ≡ record s { health_checks = u.health_checks }
  kept_trans s t u p q =
      q ∙ ap (λ (w : MemoryStore). record w { health_checks = u.health_checks }) p

  -- A run of the health checker, however long it is and whenever its context ends, changes no table
  -- of the store other than that of the health checks.
  all_tables_kept :
      {n : ℕ} (c d : Checker)
      → Run network n c d
      → d.store ≡ record c.store { health_checks = d.store.health_checks }
  all_tables_kept c d here = refl
  all_tables_kept c d (next {d = e} first rest) =
      kept_trans c.store e.store d.store (tables_kept c e first) (all_tables_kept e d rest)
