-- ===== src/Flow/Workflows/Outcomes.antt =====
-- What the sequences lead to.
use adaptive_api_routing_gat.Base.{
  ℕ, ◌+◌, ◌++◌, ◌≡◌, refl, Bool, true, false, ◌&&◌, Option, none, some, Text, codes, same,
  same_refl, Map, lookup, insert, lookup-insert_self, List, [], ◌∷◌, length, if◌then◌else◌, arith,
}
use adaptive_api_routing_gat.Base.Int.{ℤ, pos, ltb_ℤ, leb_ℤ, ◌+ℤ◌, ◌-ℤ◌, wrap}
use adaptive_api_routing_gat.Flow.{
  Attempt, BuildResult, zero_attempt, FlowStore, save, can_replace, next, save_attempt, attempt,
  save_event, event, publish_build,
}
use adaptive_api_routing_gat.Flow.Workflows.{
  CallError, err_temporary, call_error, retry_sequence, execute_with_retry, done_attempt,
  version_sequence, first_attempt, publish_sequence, event_of, recovery_sequence, build_safely,
  Built, built, panicked, ok_ready, resource_sequence, resource_from,
}

-- An attempt saved under a free key, or not older than the one there, is what is read.
attempt-save_attempt :
    (a : Attempt) (s : FlowStore)
    → lookup a.key s.attempts ≡ none
    → attempt a.key (save_attempt a s).0 ≡ a
unfolding attempt save_attempt save
attempt-save_attempt a s free = ground (arith, lookup-insert_self a.key a s.attempts)

-- For a key that has no attempt yet: if the first call succeeds, attempt 1 is stored as done; if
-- it fails with an error that is not temporary, this error is returned at once and nothing is
-- stored; if it fails with a temporary error, the same goes for a second call, whose temporary
-- error is returned.
retry_sequence-result :
    (key : Text) (call : ℕ → Option CallError) (s : FlowStore)
    → lookup key s.attempts ≡ none
    → ◌≡◌ {A = ℕ × Attempt × Option CallError}
        (
          (retry_sequence key call s).1,
          (retry_sequence key call s).2,
          (retry_sequence key call s).3,
        )
        (elim (call 1) [
          | none ↦ (1, done_attempt key 1, none)
          | some (call_error t) ↦ (1, zero_attempt, some (call_error t))
          | some err_temporary ↦ elim (call 2) [
            | none ↦ (2, done_attempt key 2, none)
            | some (call_error t) ↦ (2, zero_attempt, some (call_error t))
            | some err_temporary ↦ (2, zero_attempt, some err_temporary)
          ]
        ])
unfolding retry_sequence execute_with_retry attempt
retry_sequence-result key call s free = ground (
  arith,
  attempt-save_attempt (done_attempt key 1) s free,
  attempt-save_attempt (done_attempt key 2) s free,
)

-- For a key that has no event yet: a version that could be published is committed, but if it is
-- version 1 the pending event of the same version replaces it.
pub publish_sequence-result :
    (key : Text) (publish : ℕ → Bool) (s : FlowStore)
    → lookup key s.events ≡ none
    → (publish_sequence key publish s).1 ≡ (
        if publish 1
        then event_of key 1 (codes "pending")
        else if publish 2
        then event_of key 2 (codes "committed")
        else event_of key 1 (codes "pending"))
unfolding publish_sequence save_event save event
publish_sequence-result key publish s free = ground (
  arith,
  lookup-insert_self key (event_of key 1 (codes "committed")) s.events,
  lookup-insert_self key (event_of key 2 (codes "committed")) s.events,
  lookup-insert_self key (event_of key 1 (codes "pending")) s.events,
  lookup-insert_self key (event_of key 1 (codes "pending"))
      (insert key (event_of key 1 (codes "committed")) s.events),
)

-- For a key that has no attempt yet, the attempt with version 1 that is saved last does not replace
-- the one with version 2: the key is left with version 2, done.
pub version_sequence-result :
    (key : Text) (s : FlowStore)
    → lookup key s.attempts ≡ none
    → (version_sequence key s).1
      ≡ record (first_attempt key) { version = pos 2; state = codes "done" }
unfolding version_sequence save_attempt save attempt next can_replace wrap ◌+ℤ◌
version_sequence-result key s free =
    let first = first_attempt key in
    let retry : Attempt = record first { version = pos 2; state = codes "done" } in
    let m = insert key first s.attempts in
    ground (
      arith,
      lookup-insert_self key first s.attempts,
      lookup-insert_self key retry m,
      same_refl key,
    )

resource_from-result :
    (i : ℕ) (values : List Text) (fail_at : ℤ)
    → resource_from i values fail_at (pos 0) ≡ (
        if leb_ℤ (pos i) fail_at && ltb_ℤ fail_at (pos (i + length values))
        then record {
          committed = false;
          audit = codes "failed";
          error = some (codes "write rejected");
        }
        else record { committed = true; audit = codes "committed"; error = none })
unfolding resource_from ◌+ℤ◌ ◌-ℤ◌
resource_from-result i [] fail_at = ground arith
resource_from-result i (v ∷ vs) fail_at = ground (arith, resource_from-result (i + 1) vs fail_at)

-- Whatever the build does, a panic included, the build after it is stored under its own key,
-- ready and with the status that was set: the sequence answers that build and `true`, and an
-- error exactly if the first build panicked.
pub recovery_sequence-result :
    (key : Text) (build : BuildResult → Built) (s : FlowStore)
    → ((recovery_sequence key build s).1.key ≡ key ++ codes "-next")
      × (lookup (codes "status") (recovery_sequence key build s).1.fields ≡ some (codes "ready"))
      × ((recovery_sequence key build s).2 ≡ true)
      × (lookup (key ++ codes "-next") (recovery_sequence key build s).0.builds
          ≡ some (recovery_sequence key build s).1)
      × ((recovery_sequence key build s).3
          ≡ (elim (build (record { key = key; fields = []; ready = false })) [
            | built _ ↦ none
            | panicked t ↦ some (codes "build " ++ (key ++ (codes ": " ++ t)))
          ]))
unfolding recovery_sequence publish_build same
recovery_sequence-result key build s =
    let status : Map Text = insert (codes "status") (codes "ready") [] in
    let set : lookup (codes "status") status ≡ some (codes "ready") =
      lookup-insert_self (codes "status") (codes "ready") [] in
    (
      refl,
      set,
      unfold ok_ready in rw set,
      lookup-insert_self (key ++ codes "-next") _ (build_safely key build s).0.builds,
      unfold build_safely in ground arith,
    )

-- A sequence of writes is committed exactly if the index that fails is none of a value, and
-- otherwise fails with the error of the write: the limit on open resources is never met.
pub resource_sequence-result :
    (values : List Text) (fail_at : ℤ)
    → resource_sequence values fail_at ≡ (
        if leb_ℤ (pos 0) fail_at && ltb_ℤ fail_at (pos (length values))
        then record {
          committed = false;
          audit = codes "failed";
          error = some (codes "write rejected");
        }
        else record { committed = true; audit = codes "committed"; error = none })
unfolding resource_sequence
resource_sequence-result values fail_at = ground (arith, resource_from-result 0 values fail_at)
