-- ===== src/Flow.antt =====
-- internal/flowmodel and internal/flowstore: attempts, events and builds, and the store that keeps
-- them. The mutex makes each method one step. A key that a map lacks reads as the zero value.
pub mod Latest
pub mod Workflows
pub mod Fanout
pub mod Batches
pub mod Calls
use adaptive_api_routing_gat.Base.{
  Bool, true, false, not, ◌&&◌, none, some, Text, codes, same, Map, lookup, insert, [],
  if◌then◌else◌,
}
use adaptive_api_routing_gat.Base.Int.{ℤ, pos, ◌+ℤ◌, wrap, leb_ℤ, ltb_ℤ}

pub record Attempt : Type 0 where
  pub key : Text
  pub version : ℤ
  pub state : Text
  pub committed : Bool

abbrev pub zero_attempt : Attempt
zero_attempt = record { key = []; version = pos 0; state = []; committed = false }

unfoldable pub next : Attempt → Attempt
next a = record a { version = wrap (a.version +ℤ pos 1); state = codes "running" }

unfoldable pub can_replace : Attempt → Attempt → Bool
can_replace a current = same a.key current.key && leb_ℤ current.version a.version

pub record Event : Type 0 where
  pub key : Text
  pub version : ℤ
  pub status : Text

abbrev pub zero_event : Event
zero_event = record { key = []; version = pos 0; status = [] }

-- A map of text fields, and whether the build is ready.
pub record BuildResult : Type 0 where
  pub key : Text
  pub fields : Map Text
  pub ready : Bool

abbrev pub zero_build : BuildResult
zero_build = record { key = []; fields = []; ready = false }

-- Batches, which are only copied in and out, are left out.
pub record FlowStore : Type 0 where
  pub attempts : Map Attempt
  pub builds : Map BuildResult
  pub events : Map Event

abbrev pub new_flow_store : FlowStore
new_flow_store = record { attempts = []; builds = []; events = [] }

-- What `SaveAttempt` and `SaveEvent` have in common: a value replaces the one under its key unless
-- it is stale, and the answer is whether it was saved.
module _ {V : Type 0} (key_of : V → Text) (stale : V → V → Bool) where
  unfoldable pub save : V → Map V → Map V × Bool
  save v m = elim (lookup (key_of v) m) [
    | some current ↦ if stale v current then (m, false) else (insert (key_of v) v m, true)
    | none ↦ (insert (key_of v) v m, true)
  ]

abbrev pub key_of_attempt : Attempt → Text
key_of_attempt a = a.key

abbrev pub stale_attempt : Attempt → Attempt → Bool
stale_attempt a current = not (can_replace a current)

unfoldable pub save_attempt : Attempt → FlowStore → FlowStore × Bool
save_attempt a s =
    let (m, saved) = save key_of_attempt stale_attempt a s.attempts in
    (record s { attempts = m }, saved)

unfoldable pub attempt : Text → FlowStore → Attempt
attempt key s = elim (lookup key s.attempts) [ some a ↦ a | none ↦ zero_attempt ]

unfoldable pub publish_build : BuildResult → FlowStore → FlowStore
publish_build result s =
    if not result.ready then s else record s { builds = insert result.key result s.builds }

unfoldable pub build : Text → FlowStore → BuildResult × Bool
build key s = elim (lookup key s.builds) [ some r ↦ (r, true) | none ↦ (zero_build, false) ]

abbrev pub key_of_event : Event → Text
key_of_event e = e.key

abbrev pub stale_event : Event → Event → Bool
stale_event e current = ltb_ℤ e.version current.version

unfoldable pub save_event : Event → FlowStore → FlowStore × Bool
save_event e s =
    let (m, saved) = save key_of_event stale_event e s.events in (record s { events = m }, saved)

unfoldable pub event : Text → FlowStore → Event
event key s = elim (lookup key s.events) [ some e ↦ e | none ↦ zero_event ]
