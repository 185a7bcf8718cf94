-- ===== src/Tests/Flows.antt =====
-- Attempts, events, builds and resources.
use adaptive_api_routing_gat.Base.{refl, none, ◌≡◌, true, lookup, List, [], ◌∷◌, codes}
use adaptive_api_routing_gat.Flow.Workflows.{
  event_of, publish_sequence, done_attempt, first_attempt,
}
use adaptive_api_routing_gat.Flow.Workflows.Outcomes.{publish_sequence-result}
use mathlib.Core.List.{reverse}
use adaptive_api_routing_gat.Flow.{Attempt, new_flow_store, key_of_attempt, stale_attempt}
use adaptive_api_routing_gat.Flow.Latest.{IsLatest, save_attempts, save_attempts-IsLatest}

abbrev late : List Attempt
late = done_attempt (codes "a") 2 ∷ first_attempt (codes "a") ∷ done_attempt (codes "b") 1 ∷ []

save_attempts-IsLatest_example :
    IsLatest key_of_attempt
      (λ a. a.version)
      stale_attempt
      (reverse late)
      (save_attempts late new_flow_store).attempts
save_attempts-IsLatest_example = save_attempts-IsLatest late

no_event : lookup (codes "a") new_flow_store.events ≡ none
unfolding lookup
no_event = refl

publish_sequence-result_example :
    (publish_sequence (codes "a") (λ n. true) new_flow_store).1
    ≡ event_of (codes "a") 1 (codes "pending")
publish_sequence-result_example =
    publish_sequence-result (codes "a") (λ n. true) new_flow_store no_event
