-- ===== src/Handler/Api/Reports.antt =====
-- internal/handler/request_log_handler.go, health_handler.go, stats_handler.go and
-- export_handler.go. The items of an import draw their identifiers and times by their positions.
use adaptive_api_routing_gat.Base.{ℕ, ◌+◌, Text, codes, is_empty, List, [], ◌∷◌, if◌then◌else◌}
use adaptive_api_routing_gat.Base.Int.{ℤ, pos}
use adaptive_api_routing_gat.Base.Time.{Time}
use adaptive_api_routing_gat.Model.Services.{Service}
use adaptive_api_routing_gat.Model.Rules.{RateLimitRule}
use adaptive_api_routing_gat.Gateway.Admin.Health
use adaptive_api_routing_gat.Gateway.Stats.{get_gateway_stats}
use adaptive_api_routing_gat.Gateway.Transfer
use adaptive_api_routing_gat.Handler.Api.{
  log_item, health_item, one, statistics, snapshot, imported, Decoded, Query, ApiHandler, ok_answer,
  page_params, list_answer, respond, decoding,
}

-- `statusCode`
unfoldable pub wanted_status : Query → ℤ
wanted_status q = let v = q.get (codes "status_code") in if is_empty v then pos 0 else q.atoi v

-- The times and identifiers of the items of an import, from the position `i` on.
abbrev pub Draws : Type 0
Draws = ℕ → Text × Text × Time

unfoldable pub drawn_services : Draws → (i : ℕ) → List Service → List (Text × Text × Time × Service)
drawn_services draws i [] = []
drawn_services draws i (v ∷ vs) =
    let (id, health_id, now) = draws i in (id, health_id, now, v) ∷ drawn_services draws (i + 1) vs

unfoldable pub drawn_rules :
    Draws → (i : ℕ) → List RateLimitRule → List (Text × Time × RateLimitRule)
drawn_rules draws i [] = []
drawn_rules draws i (r ∷ rs) =
    let (id, _, now) = draws i in (id, now, r) ∷ drawn_rules draws (i + 1) rs

module _ {R : Type 0} where
  unfoldable pub list_request_logs : Query → (max_size : ℤ) → ApiHandler R
  unfolding page_params list_answer wanted_status
  list_request_logs q max_size g =
      let params = page_params q max_size in
      (
        g,
        list_answer log_item params (
            Health.list_request_logs
              (record {
                route_id = q.get (codes "route_id");
                app_id = q.get (codes "app_id");
                status_code = wanted_status q;
              })
              params.page_number params.page_size g.store),
      )

  unfoldable pub get_request_log : (id : Text) → ApiHandler R
  unfolding respond
  get_request_log id = respond (λ l. ok_answer (one (log_item l))) (Health.get_request_log id)

  unfoldable pub list_health_checks : Query → (max_size : ℤ) → ApiHandler R
  unfolding page_params list_answer
  list_health_checks q max_size g =
      let params = page_params q max_size in
      (
        g,
        list_answer health_item params
            (Health.list_health_checks params.page_number params.page_size g.store),
      )

  unfoldable pub get_health_check : (service_id : Text) → ApiHandler R
  unfolding respond
  get_health_check service_id =
      respond (λ h. ok_answer (one (health_item h))) (Health.get_health_check service_id)

  unfoldable pub probe_service :
      Health.Network → (fresh_id : Text) → Time → (service_id : Text) → ApiHandler R
  unfolding respond
  probe_service network fresh_id now service_id =
      respond (λ h. ok_answer (one (health_item h)))
        (Health.probe_service network fresh_id now service_id)

  unfoldable pub get_stats : ApiHandler R
  get_stats g = (g, ok_answer (statistics (get_gateway_stats g.store)))

  unfoldable pub export_config : ApiHandler R
  export_config g = (g, ok_answer (snapshot (Transfer.export_config g.store)))

  unfoldable pub import_services : Decoded (List Service) → Draws → ApiHandler R
  unfolding decoding drawn_services
  import_services body draws = decoding body λ services g.
      let (s, n, errs) = Transfer.import_services (drawn_services draws 0 services) g.store in
      (record g { store = s }, ok_answer (imported n errs))

  unfoldable pub import_rate_limit_rules : Decoded (List RateLimitRule) → Draws → ApiHandler R
  unfolding decoding drawn_rules
  import_rate_limit_rules body draws = decoding body λ rules g.
      let (s, n, errs) = Transfer.import_rate_limit_rules (drawn_rules draws 0 rules) g.store in
      (record g { store = s }, ok_answer (imported n errs))
