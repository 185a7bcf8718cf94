-- ===== src/Flow/Workflows.antt =====
-- internal/flowservice/workflows.go and internal/flowhandler/coordinator.go: the sequences on
-- attempts, builds, events and resources. The callbacks are parameters: what they answer.
pub mod Outcomes
use adaptive_api_routing_gat.Base.{
  ℕ, zero, suc, ◌+◌, ◌++◌, Bool, true, false, ◌&&◌, Option, none, some, Text, codes, same, Map,
  lookup, insert, List, [], ◌∷◌, if◌then◌else◌,
}
use adaptive_api_routing_gat.Base.Int.{ℤ, pos, eq_ℤ, ltb_ℤ, ◌+ℤ◌, ◌-ℤ◌}
use adaptive_api_routing_gat.Flow.{
  Attempt, Event, BuildResult, zero_build, FlowStore, next, save_attempt, attempt, publish_build,
  save_event, event,
}

-- What a call to an upstream answers if it fails.
pub data CallError : Type 0 where
  err_temporary : CallError
  call_error : Text → CallError

abbrev pub done_attempt : Text → ℕ → Attempt
done_attempt key n = record { key = key; version = pos n; state = codes "done"; committed = true }

-- The rounds that are left, from the attempt `n` on.
unfoldable pub retry_from :
    (rounds n : ℕ) → Text → (ℕ → Option CallError) → FlowStore → FlowStore × ℕ × Option CallError
retry_from zero n key call s = (s, 2, some err_temporary)
retry_from (suc rounds) n key call s = elim (call n) [
  | none ↦ ((save_attempt (done_attempt key n) s).0, n, none)
  | some err_temporary ↦ retry_from rounds (n + 1) key call s
  | some (call_error t) ↦ (s, n, some (call_error t))
]

unfoldable pub execute_with_retry :
    Text → (ℕ → Option CallError) → FlowStore → FlowStore × ℕ × Option CallError
unfolding retry_from
execute_with_retry key call s = retry_from 2 1 key call s

unfoldable pub retry_sequence :
    Text → (ℕ → Option CallError) → FlowStore → FlowStore × ℕ × Attempt × Option CallError
retry_sequence key call s =
    let (s', count, e) = execute_with_retry key call s in (s', count, attempt key s', e)

-- What a build leaves of the result that it works on, or the text of its panic.
pub data Built : Type 0 where
  built : BuildResult → Built
  panicked : Text → Built

unfoldable pub build_safely :
    Text → (BuildResult → Built) → FlowStore → FlowStore × BuildResult × Option Text
build_safely key build s = elim (build (record { key = key; fields = []; ready = false })) [
  | panicked t ↦ (s, zero_build, some (codes "build " ++ (key ++ (codes ": " ++ t))))
  | built working ↦
      let result : BuildResult = record working { ready = true } in
      (publish_build result s, result, none)
]

unfoldable pub ok_ready : BuildResult → Bool
ok_ready result = result.ready && (elim (lookup (codes "status") result.fields) [
  | some v ↦ same v (codes "ready")
  | none ↦ false
])

abbrev pub ready_fields : BuildResult → Built
ready_fields out =
    built (record out { fields = insert (codes "status") (codes "ready") out.fields })

unfoldable pub recovery_sequence :
    Text → (BuildResult → Built) → FlowStore → FlowStore × BuildResult × Bool × Option Text
unfolding build_safely ok_ready
recovery_sequence key build s =
    let (s', _, e) = build_safely key build s in
    let (s'', result, _) = build_safely (key ++ codes "-next") ready_fields s' in
    (s'', result, ok_ready result, e)

abbrev pub first_attempt : Text → Attempt
first_attempt key = record {
  key = key;
  version = pos 1;
  state = codes "running";
  committed = false;
}

unfoldable pub version_sequence : Text → FlowStore → FlowStore × Attempt × ℕ
version_sequence key s =
    let first = first_attempt key in
    let s1 = (save_attempt first s).0 in
    let retry : Attempt = record (next first) { state = codes "done" } in
    let s2 = (save_attempt retry s1).0 in
    let late : Attempt = record first { state = codes "running" } in
    let s3 = (save_attempt late s2).0 in (s3, attempt key s3, 1)

abbrev pub event_of : Text → ℕ → Text → Event
event_of key n status = record { key = key; version = pos n; status = status }

-- The rounds that are left; `publish n` is whether the version `n` could be published.
unfoldable pub publish_from : (rounds n : ℕ) → Text → (ℕ → Bool) → FlowStore → FlowStore
publish_from zero n key publish s = s
publish_from (suc rounds) n key publish s = elim (publish n) [
  | false ↦ publish_from rounds (n + 1) key publish s
  | true ↦ (save_event (event_of key n (codes "committed")) s).0
]

unfoldable pub publish_sequence : Text → (ℕ → Bool) → FlowStore → FlowStore × Event × ℕ
unfolding publish_from
publish_sequence key publish s =
    let s1 = publish_from 2 1 key publish s in
    let s2 = (save_event (event_of key 1 (codes "pending")) s1).0 in (s2, event key s2, 1)

pub record ResourceResult : Type 0 where
  pub committed : Bool
  pub audit : Text
  pub error : Option Text

-- The loop, at the index `i`, with the count of open resources.
unfoldable pub resource_from : (i : ℕ) → List Text → (fail_at opened : ℤ) → ResourceResult
resource_from i [] fail_at opened = record {
  committed = true;
  audit = codes "committed";
  error = none;
}
resource_from i (v ∷ vs) fail_at opened =
    let rest = resource_from (i + 1) vs fail_at ((opened +ℤ pos 1) -ℤ pos 1) in
    if ltb_ℤ (pos 1) (opened +ℤ pos 1)
    then record { committed = false; audit = []; error = some (codes "resource limit exceeded") }
    else if eq_ℤ (pos i) fail_at
    then record { committed = false; audit = codes "failed"; error = some (codes "write rejected") }
    else rest

unfoldable pub resource_sequence : List Text → ℤ → ResourceResult
unfolding resource_from
resource_sequence values fail_at = resource_from 0 values fail_at (pos 0)
