-- ===== src/Flow/Latest.antt =====
-- What the store keeps of a sequence of saved attempts or events.
use mathlib.Core.List.{reverse, reverse_aux}
use adaptive_api_routing_gat.Base.{
  none-ne-some, some-injective, ◌≡◌, ◌≢◌, refl, sym, ap, ◌∙◌, Bool, none, some, Option-cases,
  Bool-cases, List, [], ◌∷◌, In, here, there, In-cases, Text, same, same_iff, Map, lookup, insert,
  lookup-insert, lookup-insert_self, lookup-insert_cases, inl, inr, ◌⊎◌, arith,
}
use adaptive_api_routing_gat.Base.Int.{ℤ, ltb_ℤ, ◌≤ℤ◌}
use adaptive_api_routing_gat.Flow.{
  Attempt, Event, FlowStore, new_flow_store, save, save_attempt, save_event, can_replace,
  key_of_attempt, stale_attempt, key_of_event, stale_event,
}

module _ {V : Type 0} (key_of : V → Text) (version_of : V → ℤ) (stale : V → V → Bool) where
  unfoldable pub save_all : List V → Map V → Map V
  save_all [] m = m
  save_all (v ∷ vs) m = save_all vs (save key_of stale v m).0

  -- Values stand under their keys; each is among those saved, and none that was saved under the
  -- key is newer.
  pub record IsLatest (saved : List V) (m : Map V) : Type 0 where
    pub keyed : (k : Text) (v : V) → lookup k m ≡ some v → key_of v ≡ k
    pub found : (k : Text) (v : V) → lookup k m ≡ some v → In v saved
    pub latest :
        (k : Text) (v w : V)
        → lookup k m ≡ some v
        → In w saved
        → key_of w ≡ k
        → version_of w ≤ℤ version_of v
    pub kept : (k : Text) (w : V) → In w saved → key_of w ≡ k → lookup k m ≢ none

  empty-IsLatest : IsLatest [] []
  unfolding lookup
  empty-IsLatest = record {
    keyed = λ k v e. absurd (none-ne-some e);
    found = λ k v e. absurd (none-ne-some e);
    latest = λ k v w e i q. elim i [ ];
    kept = λ k w i q e. elim i [ ];
  }

  insert-IsLatest :
      (v : V) (seen : List V) (m : Map V)
      → ((u : V) → lookup (key_of v) m ≡ some u → version_of u ≤ℤ version_of v)
      → IsLatest seen m
      → IsLatest (v ∷ seen) (insert (key_of v) v m)
  insert-IsLatest v seen m newest l = record {
    keyed = λ k u e. elim (lookup-insert_cases (key_of v) k v u m e) [
      | inl (at_v, is_v) ↦ rw (← is_v) at_v
      | inr (other, old) ↦ l.keyed k u old
    ];
    found = λ k u e. elim (lookup-insert_cases (key_of v) k v u m e) [
      | inl (at_v, is_v) ↦ rw (← is_v) here
      | inr (other, old) ↦ there (l.found k u old)
    ];
    latest = λ k u w e i q. elim (lookup-insert_cases (key_of v) k v u m e) [
      | inl (at_v, is_v) ↦ rw (← is_v) (elim (In-cases i) [
        | inl first ↦ rw first (omega arith)
        | inr later ↦ elim (Option-cases (lookup (key_of v) m)) [
          | inl missing ↦ absurd (l.kept (key_of v) w later (q ∙ sym at_v) missing)
          | inr (u', old) ↦
              let a = l.latest (key_of v) u' w old later (q ∙ sym at_v) in
              let b = newest u' old in omega arith
        ]
      ])
      | inr (other, old) ↦ elim (In-cases i) [
        | inl first ↦ absurd (other (sym q ∙ ap key_of first))
        | inr later ↦ l.latest k u w old later q
      ]
    ];
    kept = λ k w i q e. elim (In-cases i) [
      | inl first ↦ none-ne-some (
          sym e
          ∙ ap (λ j. lookup j (insert (key_of v) v m)) (sym q ∙ ap key_of first)
          ∙ lookup-insert_self (key_of v) v m)
      | inr later ↦ elim (Bool-cases (same (key_of v) k)) [
        | inl hit ↦ absurd (ground (arith, lookup-insert (key_of v) k v m))
        | inr miss ↦ l.kept k w later q (ground (arith, lookup-insert (key_of v) k v m))
      ]
    ];
  }

  ignored-IsLatest :
      (v : V) (seen : List V) (m : Map V) (u : V)
      → lookup (key_of v) m ≡ some u
      → version_of v ≤ℤ version_of u
      → IsLatest seen m
      → IsLatest (v ∷ seen) m
  ignored-IsLatest v seen m u at_v older l = record {
    keyed = l.keyed;
    found = λ k w e. there (l.found k w e);
    latest = λ k u' w e i q. elim (In-cases i) [
      | inl first ↦
          let p : lookup (key_of v) m ≡ some u' =
            ap (λ j. lookup j m) (ap key_of (sym first) ∙ q) ∙ e in
          let same_entry = some-injective (sym at_v ∙ p) in rw first (rw (← same_entry) older)
      | inr later ↦ l.latest k u' w e later q
    ];
    kept = λ k w i q e. elim (In-cases i) [
      | inl first ↦ none-ne-some (sym e ∙ ap (λ j. lookup j m) (sym q ∙ ap key_of first) ∙ at_v)
      | inr later ↦ l.kept k w later q e
    ];
  }

  module _
      (stale_ltb : (v w : V)
        → key_of v ≡ key_of w
        → stale v w ≡ ltb_ℤ (version_of v) (version_of w)) where
    -- A save writes a value that is at least as new as the one under its key, or nothing.
    save_cases :
        (v : V) (m : Map V)
        → ((u : V) → lookup (key_of v) m ≡ some u → key_of u ≡ key_of v)
        → (((save key_of stale v m).0 ≡ insert (key_of v) v m)
            × ((u : V) → lookup (key_of v) m ≡ some u → version_of u ≤ℤ version_of v))
          ⊎ (((save key_of stale v m).0 ≡ m)
              × ((u : V) × (lookup (key_of v) m ≡ some u) × (version_of v ≤ℤ version_of u)))
    unfolding save
    save_cases v m keyed = elim (Option-cases (lookup (key_of v) m)) [
      | inl missing ↦ inl (rw (missing, save), λ u e. absurd (none-ne-some (sym missing ∙ e)))
      | inr (u, e) ↦
          let order = stale_ltb v u (sym (keyed u e)) in
          elim (Bool-cases (stale v u)) [
            | inl old ↦ inr (rw (e, old, save), (u, e, ground arith))
            | inr fresh ↦ inl (
              rw (e, fresh, save),
              λ u' e'. let p = some-injective (sym e ∙ e') in rw (← p) (ground arith),
            )
          ]
    ]

    save-IsLatest :
        (v : V) (seen : List V) (m : Map V)
        → IsLatest seen m
        → IsLatest (v ∷ seen) (save key_of stale v m).0
    save-IsLatest v seen m l = elim (save_cases v m (λ u e. l.keyed (key_of v) u e)) [
      | inl (written, newest) ↦ rw written (insert-IsLatest v seen m newest l)
      | inr (unchanged, (u, at_v, older)) ↦ rw unchanged (ignored-IsLatest v seen m u at_v older l)
    ]

    save_all-IsLatest_from :
        (vs seen : List V) (m : Map V)
        → IsLatest seen m
        → IsLatest (reverse_aux vs seen) (save_all vs m)
    unfolding save_all
    save_all-IsLatest_from [] seen m l = l
    save_all-IsLatest_from (v ∷ vs) seen m l =
        save_all-IsLatest_from vs (v ∷ seen) (save key_of stale v m).0 (save-IsLatest v seen m l)

    save_all-IsLatest : (vs : List V) → IsLatest (reverse vs) (save_all vs [])
    save_all-IsLatest vs = save_all-IsLatest_from vs [] [] empty-IsLatest

stale_attempt-ltb : (a b : Attempt) → a.key ≡ b.key → stale_attempt a b ≡ ltb_ℤ a.version b.version
unfolding can_replace
stale_attempt-ltb a b e = ground (arith, same_iff a.key b.key)

-- The store after a sequence of `SaveAttempt` or `SaveEvent` calls.
unfoldable pub save_attempts : List Attempt → FlowStore → FlowStore
save_attempts [] s = s
save_attempts (a ∷ xs) s = save_attempts xs (save_attempt a s).0

unfoldable pub save_events : List Event → FlowStore → FlowStore
save_events [] s = s
save_events (e ∷ xs) s = save_events xs (save_event e s).0

attempts-save_attempts :
    (xs : List Attempt) (s : FlowStore)
    → (save_attempts xs s).attempts
      ≡ save_all key_of_attempt (λ a. a.version) stale_attempt xs s.attempts
unfolding save_attempts save_all save_attempt
attempts-save_attempts [] s = refl
attempts-save_attempts (a ∷ xs) s = attempts-save_attempts xs (save_attempt a s).0

events-save_events :
    (xs : List Event) (s : FlowStore)
    → (save_events xs s).events ≡ save_all key_of_event (λ e. e.version) stale_event xs s.events
unfolding save_events save_all save_event
events-save_events [] s = refl
events-save_events (e ∷ xs) s = events-save_events xs (save_event e s).0

-- Of a sequence of attempts saved to a new store, in any order of their versions, the store keeps
-- for each key that occurs one of those saved with this key, and none of them has a higher
-- version: an attempt that comes late does not replace a later version.
pub save_attempts-IsLatest :
    (xs : List Attempt)
    → IsLatest key_of_attempt
        (λ a. a.version)
        stale_attempt
        (reverse xs)
        (save_attempts xs new_flow_store).attempts
save_attempts-IsLatest xs =
    rw (attempts-save_attempts xs new_flow_store)
      (save_all-IsLatest key_of_attempt (λ a. a.version) stale_attempt stale_attempt-ltb xs)

-- Of a sequence of events saved to a new store, in any order of their versions, the store keeps
-- for each key that occurs one of those saved with this key, and none of them has a higher
-- version.
pub save_events-IsLatest :
    (xs : List Event)
    → IsLatest key_of_event
        (λ e. e.version)
        stale_event
        (reverse xs)
        (save_events xs new_flow_store).events
save_events-IsLatest xs =
    rw (events-save_events xs new_flow_store)
      (save_all-IsLatest key_of_event (λ e. e.version) stale_event (λ v w e. refl) xs)
