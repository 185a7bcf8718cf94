-- ===== src/Handler/Api/Routes.antt =====
-- internal/handler/route_handler.go. `upper` is `unicode.ToUpper`.
use adaptive_api_routing_gat.Base.{ℕ, Bool, Text, codes, []}
use adaptive_api_routing_gat.Base.Int.{ℤ}
use adaptive_api_routing_gat.Base.Time.{Time}
use adaptive_api_routing_gat.Model.Routes.{Route}
use adaptive_api_routing_gat.Gateway.Admin.Routes
use adaptive_api_routing_gat.Handler.Api.{
  route_item, one, Decoded, Query, ApiHandler, ok_answer, created, no_content, page_params,
  list_answer, respond, decoding,
}

pub record RouteRequest : Type 0 where
  pub path : Text
  pub method : Text
  pub service_id : Text
  pub strip_prefix : Bool
  pub requires_auth : Bool
  pub rate_limit_rule_id : Text

abbrev pub requested : RouteRequest → Route
requested req = record {
  id = [];
  path = req.path;
  method = req.method;
  service_id = req.service_id;
  strip_prefix = req.strip_prefix;
  requires_auth = req.requires_auth;
  rate_limit_rule_id = req.rate_limit_rule_id;
  created_at = 0;
  updated_at = 0;
}

module _ {R : Type 0} where
  unfoldable pub create_route :
      (upper : ℕ → ℕ) → Decoded RouteRequest → (id : Text) → Time → ApiHandler R
  unfolding decoding respond
  create_route upper body id now = decoding body λ req.
      respond (λ v. created (one (route_item v))) (Routes.create_route upper id now (requested req))

  unfoldable pub list_routes : Query → (max_size : ℤ) → ApiHandler R
  unfolding page_params list_answer
  list_routes q max_size g =
      let params = page_params q max_size in
      (
        g,
        list_answer route_item params (
            Routes.list_routes
              (record { service_id = q.get (codes "service_id"); method = q.get (codes "method") })
              params.page_number params.page_size g.store),
      )

  unfoldable pub get_route : (id : Text) → ApiHandler R
  unfolding respond
  get_route id = respond (λ v. ok_answer (one (route_item v))) (Routes.get_route id)

  unfoldable pub update_route :
      (upper : ℕ → ℕ) → Decoded RouteRequest → (id : Text) → Time → ApiHandler R
  unfolding decoding respond
  update_route upper body id now = decoding body λ req.
      respond (λ v. ok_answer (one (route_item v)))
        (Routes.update_route upper id now (requested req))

  unfoldable pub delete_route : (id : Text) → ApiHandler R
  unfolding respond
  delete_route id = respond (λ _. no_content) (Routes.delete_route id)
