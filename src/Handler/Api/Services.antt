-- ===== src/Handler/Api/Services.antt =====
-- internal/handler/service_handler.go. Time and fresh identifiers are arguments.
use adaptive_api_routing_gat.Base.{ℕ, Text, codes, []}
use adaptive_api_routing_gat.Base.Int.{ℤ}
use adaptive_api_routing_gat.Base.Time.{Time}
use adaptive_api_routing_gat.Model.Services.{Service}
use adaptive_api_routing_gat.Gateway.Admin.Services
use adaptive_api_routing_gat.Handler.Api.{
  service_item, one, Decoded, Query, ApiHandler, ok_answer, created, no_content, page_params,
  list_answer, respond, decoding,
}

pub record ServiceRequest : Type 0 where
  pub name : Text
  pub base_url : Text
  pub timeout : ℤ
  pub retries : ℤ
  pub status : Text

-- The service of a request; its other fields have their zero values.
abbrev pub requested : ServiceRequest → Service
requested req = record {
  id = [];
  name = req.name;
  base_url = req.base_url;
  timeout = req.timeout;
  retries = req.retries;
  status = req.status;
  created_at = 0;
  updated_at = 0;
}

module _ {R : Type 0} where
  unfoldable pub create_service :
      Decoded ServiceRequest → (id health_id : Text) → Time → ApiHandler R
  unfolding decoding respond
  create_service body id health_id now = decoding body λ req.
      respond (λ v. created (one (service_item v)))
        (Services.create_service id health_id now (requested req))

  unfoldable pub list_services : (lower : ℕ → ℕ) → Query → (max_size : ℤ) → ApiHandler R
  unfolding page_params list_answer
  list_services lower q max_size g =
      let params = page_params q max_size in
      (
        g,
        list_answer service_item params (
            Services.list_services lower
              (record { status = q.get (codes "status"); keyword = q.get (codes "keyword") })
              params.page_number params.page_size g.store),
      )

  unfoldable pub get_service : (id : Text) → ApiHandler R
  unfolding respond
  get_service id = respond (λ v. ok_answer (one (service_item v))) (Services.get_service id)

  unfoldable pub update_service : Decoded ServiceRequest → (id : Text) → Time → ApiHandler R
  unfolding decoding respond
  update_service body id now = decoding body λ req.
      respond (λ v. ok_answer (one (service_item v)))
        (Services.update_service id now (requested req))

  unfoldable pub delete_service : (id : Text) → ApiHandler R
  unfolding respond
  delete_service id = respond (λ _. no_content) (Services.delete_service id)
