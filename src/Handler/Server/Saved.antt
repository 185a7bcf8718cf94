-- ===== src/Handler/Server/Saved.antt =====
-- What the creations and the updates of the management API answer.
use adaptive_api_routing_gat.Base.{
  ◌≡◌, refl, ◌∙◌, sym, Bool, true, false, Text, Option, Option-cases, Result, Result-cases, ok, err,
  inl, inr, arith,
}
use adaptive_api_routing_gat.Base.Int.{ℤ}
use adaptive_api_routing_gat.Base.Time.{Time}
use adaptive_api_routing_gat.Model.Rules.{RateLimitRule}
use adaptive_api_routing_gat.Model.Valid.{IsService, IsRoute, IsApp, IsRule}
use adaptive_api_routing_gat.Store.Sound.{IsKnown}
use adaptive_api_routing_gat.Gateway.{Gateway}
use adaptive_api_routing_gat.Gateway.Admin.Rules
use adaptive_api_routing_gat.Gateway.Admin.Apps
use adaptive_api_routing_gat.Gateway.Admin.Valid.{
  create_service-IsService, update_service-IsService, create_route-IsRoute, update_route-IsRoute,
  create_app-IsApp, update_app-IsApp, create_rate_limit_rule-IsRule, update_stored_rule-IsRule,
  create_api_key-IsKnown, update_api_key_status-IsKnown,
}
use adaptive_api_routing_gat.Handler.Replies.{write_service_error}
use adaptive_api_routing_gat.Handler.Api.{
  Item, service_item, route_item, app_item, key_item, rule_item, Payload, no_data, one, Answer,
  answered, panicked, Decoded, malformed, decoded, respond, decoding, created, ok_answer,
}
use adaptive_api_routing_gat.Handler.Api.Services as ServiceApi
use adaptive_api_routing_gat.Handler.Api.Routes as RouteApi
use adaptive_api_routing_gat.Handler.Api.Apps as AppApi
use adaptive_api_routing_gat.Handler.Api.ApiKeys
use adaptive_api_routing_gat.Handler.Api.ApiKeys.{expiry}
use adaptive_api_routing_gat.Handler.Api.Rules as RuleApi
use adaptive_api_routing_gat.Handler.Server.Endpoints.{
  Endpoint, System, WebRequest, ApiDraws, serve_endpoint,
}

-- What an answer carries.
abbrev pub content_of : Answer → Payload
content_of (answered response) = response.content
content_of panicked = no_data

-- An entity keeps the constraints of its kind; a key has one of the two statuses.
abbrev pub IsValidItem : Item → Type 0
IsValidItem (service_item v) = IsService v
IsValidItem (route_item r) = IsRoute r
IsValidItem (app_item a) = IsApp a
IsValidItem (key_item k) = IsKnown k
IsValidItem (rule_item r) = IsRule r
IsValidItem _ = Unit

-- The endpoints that create or update an entity.
abbrev pub saves : Endpoint → Bool
saves Endpoint.create_service = true
saves Endpoint.update_service = true
saves Endpoint.create_route = true
saves Endpoint.update_route = true
saves Endpoint.create_app = true
saves Endpoint.update_app = true
saves Endpoint.create_api_key = true
saves Endpoint.update_api_key_status = true
saves Endpoint.create_rate_limit_rule = true
saves Endpoint.update_rate_limit_rule = true
saves _ = false

true-ne-false : true ≡ false → ⊥
true-ne-false p = cc

one-injective : {i j : Item} → one i ≡ one j → i ≡ j
one-injective p = cc

no_data-ne-one : {i : Item} → no_data ≡ one i → ⊥
no_data-ne-one p = cc

-- The answer to a result whose items are valid.
answer_valid :
    {A : Type 0} (to_item : A → Item) (to_answer : Payload → Answer) (result : Result A) (i : Item)
    → ((content : Payload) → content_of (to_answer content) ≡ content)
    → ((a : A) → result ≡ ok a → IsValidItem (to_item a))
    → content_of (elim result as (λ _. Answer) [
      | ok a ↦ to_answer (one (to_item a))
      | err e ↦ answered (record { reply = write_service_error e; content = no_data })
    ])
      ≡ one i
    → IsValidItem i
answer_valid to_item to_answer (ok a) i carries valid h =
    let same_item : to_item a ≡ i = one-injective (sym (carries (one (to_item a))) ∙ h) in
    rw (← same_item) (valid a refl)
answer_valid to_item to_answer (err e) i carries valid h = absurd (no_data-ne-one h)

created-content : (content : Payload) → content_of (created content) ≡ content
unfolding created
created-content content = refl

ok_answer-content : (content : Payload) → content_of (ok_answer content) ≡ content
unfolding ok_answer
ok_answer-content content = refl

module _ {R : Type 0} where
  update_rate_limit_rule-IsRule :
      (id : Text) (now : Time) (r : RateLimitRule) (g : Gateway R) {w : RateLimitRule}
      → (Rules.update_rate_limit_rule id now r g).1 ≡ ok w
      → IsRule w
  unfolding Rules.update_rate_limit_rule
  update_rate_limit_rule-IsRule id now r g {w} e =
      elim (Result-cases (Rules.update_stored_rule id now r g.store).1) [
        | inl (w', updated) ↦
            let same_rule : w' ≡ w = ground arith in
            rw (← same_rule) (update_stored_rule-IsRule g.store id now r updated)
        | inr (_, failed) ↦ absurd (ground arith)
      ]

  new_key_valid :
      (parse_time : Text → Option Time) (body : Decoded ApiKeys.ApiKeyRequest)
      (draws : ApiKeys.KeyDraws) (g : Gateway R) (i : Item)
      → content_of (ApiKeys.create_api_key parse_time body draws g).1 ≡ one i
      → IsValidItem i
  unfolding ApiKeys.create_api_key decoding respond
  new_key_valid parse_time (malformed text) draws g i h = absurd (no_data-ne-one h)
  new_key_valid parse_time (decoded req) draws g i h =
      elim (Option-cases (expiry parse_time req.expires_at)) [
        | inl bad ↦ absurd (ground arith)
        | inr (expires, parsed) ↦
            let act =
              Apps.create_api_key draws.id draws.hex req.app_id req.secret expires draws.created_at
                draws.validated_at in
            let carried : content_of (respond (λ k. created (one (key_item k))) act g).1 ≡ one i =
              ground arith in
            answer_valid key_item created (act g.store).1 i created-content
              (λ v.
                create_api_key-IsKnown g.store draws.id draws.hex req.app_id req.secret expires
                  draws.created_at draws.validated_at)
              carried
      ]

module _ {R : Type 0} (sys : System) (max_size : ℤ) (r : WebRequest) (d : ApiDraws) where
  -- A service, route, app, API key or rule that a creation or an update is answered with is valid:
  -- its texts are trimmed and not empty where they must not be, its numbers are within their bounds
  -- and its status or method is a known one; of a key, its status.
  pub saved-IsValidItem :
      (e : Endpoint) (value : Text) (g : Gateway R) (i : Item)
      → saves e ≡ true
      → content_of (serve_endpoint sys max_size r d e value g).1 ≡ one i
      → IsValidItem i
  unfolding serve_endpoint ServiceApi.create_service ServiceApi.update_service RouteApi.create_route
      RouteApi.update_route AppApi.create_app AppApi.update_app ApiKeys.create_api_key
      ApiKeys.update_api_key_status RuleApi.create_rate_limit_rule RuleApi.update_rate_limit_rule
      respond decoding
  saved-IsValidItem Endpoint.create_service value g i saving h =
      (elim (sys.decode_service r.body)
          as (λ b.
            content_of (ServiceApi.create_service b d.id d.second_id d.now g).1 ≡ one i
            → IsValidItem i) [
              | malformed _ ↦ λ q. absurd (no_data-ne-one q)
              | decoded req ↦ λ q.
                  answer_valid service_item created _ i created-content
                    (λ v.
                      create_service-IsService g.store d.id d.second_id d.now
                        (ServiceApi.requested req))
                    q
            ])
        h
  saved-IsValidItem Endpoint.update_service value g i saving h =
      (elim (sys.decode_service r.body)
          as (λ b.
            content_of (ServiceApi.update_service b value d.now g).1 ≡ one i → IsValidItem i) [
              | malformed _ ↦ λ q. absurd (no_data-ne-one q)
              | decoded req ↦ λ q.
                  answer_valid service_item ok_answer _ i ok_answer-content
                    (λ v. update_service-IsService g.store value d.now (ServiceApi.requested req)) q
            ])
        h
  saved-IsValidItem Endpoint.create_route value g i saving h =
      (elim (sys.decode_route r.body)
          as (λ b.
            content_of (RouteApi.create_route sys.upper b d.id d.now g).1 ≡ one i → IsValidItem i) [
              | malformed _ ↦ λ q. absurd (no_data-ne-one q)
              | decoded req ↦ λ q.
                  answer_valid route_item created _ i created-content
                    (λ v.
                      create_route-IsRoute g.store sys.upper d.id d.now (RouteApi.requested req))
                    q
            ])
        h
  saved-IsValidItem Endpoint.update_route value g i saving h =
      (elim (sys.decode_route r.body)
          as (λ b.
            content_of (RouteApi.update_route sys.upper b value d.now g).1 ≡ one i
            → IsValidItem i) [
              | malformed _ ↦ λ q. absurd (no_data-ne-one q)
              | decoded req ↦ λ q.
                  answer_valid route_item ok_answer _ i ok_answer-content
                    (λ v.
                      update_route-IsRoute g.store sys.upper value d.now (RouteApi.requested req))
                    q
            ])
        h
  saved-IsValidItem Endpoint.create_app value g i saving h =
      (elim (sys.decode_app r.body)
          as (λ b. content_of (AppApi.create_app b d.id d.now g).1 ≡ one i → IsValidItem i) [
            | malformed _ ↦ λ q. absurd (no_data-ne-one q)
            | decoded req ↦ λ q.
                answer_valid app_item created _ i created-content
                  (λ v. create_app-IsApp g.store d.id d.now (AppApi.requested req)) q
          ])
        h
  saved-IsValidItem Endpoint.update_app value g i saving h =
      (elim (sys.decode_app r.body)
          as (λ b. content_of (AppApi.update_app b value d.now g).1 ≡ one i → IsValidItem i) [
            | malformed _ ↦ λ q. absurd (no_data-ne-one q)
            | decoded req ↦ λ q.
                answer_valid app_item ok_answer _ i ok_answer-content
                  (λ v. update_app-IsApp g.store value d.now (AppApi.requested req)) q
          ])
        h
  saved-IsValidItem Endpoint.create_api_key value g i saving h =
      new_key_valid sys.parse_time (sys.decode_api_key r.body) _ g i h
  saved-IsValidItem Endpoint.update_api_key_status value g i saving h =
      (elim (sys.decode_status r.body)
          as (λ b. content_of (ApiKeys.update_api_key_status b value g).1 ≡ one i → IsValidItem i) [
            | malformed _ ↦ λ q. absurd (no_data-ne-one q)
            | decoded req ↦ λ q.
                answer_valid key_item ok_answer _ i ok_answer-content
                  (λ v. update_api_key_status-IsKnown g.store value req.status) q
          ])
        h
  saved-IsValidItem Endpoint.create_rate_limit_rule value g i saving h =
      (elim (sys.decode_rule r.body)
          as (λ b.
            content_of (RuleApi.create_rate_limit_rule b d.id d.now g).1 ≡ one i → IsValidItem i) [
              | malformed _ ↦ λ q. absurd (no_data-ne-one q)
              | decoded req ↦ λ q.
                  answer_valid rule_item created _ i created-content
                    (λ v. create_rate_limit_rule-IsRule g.store d.id d.now (RuleApi.requested req))
                    q
            ])
        h
  saved-IsValidItem Endpoint.update_rate_limit_rule value g i saving h =
      (elim (sys.decode_rule r.body)
          as (λ b.
            content_of (RuleApi.update_rate_limit_rule b value d.now g).1 ≡ one i → IsValidItem i) [
              | malformed _ ↦ λ q. absurd (no_data-ne-one q)
              | decoded req ↦ λ q.
                  answer_valid rule_item ok_answer _ i ok_answer-content
                    (λ v. update_rate_limit_rule-IsRule value d.now (RuleApi.requested req) g) q
            ])
        h
  saved-IsValidItem _ value g i saving h = absurd (true-ne-false (sym saving))
