-- ===== src/Handler/Api/Apps.antt =====
-- internal/handler/app_handler.go: the handlers of applications.
use adaptive_api_routing_gat.Base.{Text, codes, []}
use adaptive_api_routing_gat.Base.Int.{ℤ}
use adaptive_api_routing_gat.Base.Time.{Time}
use adaptive_api_routing_gat.Model.Apps.{App}
use adaptive_api_routing_gat.Gateway.Admin.Apps
use adaptive_api_routing_gat.Handler.Api.{
  app_item, one, Decoded, Query, ApiHandler, ok_answer, created, no_content, page_params,
  list_answer, respond, decoding,
}

pub record AppRequest : Type 0 where
  pub name : Text
  pub status : Text

abbrev pub requested : AppRequest → App
requested req = record {
  id = [];
  name = req.name;
  status = req.status;
  created_at = 0;
  updated_at = 0;
}

module _ {R : Type 0} where
  unfoldable pub create_app : Decoded AppRequest → (id : Text) → Time → ApiHandler R
  unfolding decoding respond
  create_app body id now =
      decoding body
        λ req. respond (λ a. created (one (app_item a))) (Apps.create_app id now (requested req))

  unfoldable pub list_apps : Query → (max_size : ℤ) → ApiHandler R
  unfolding page_params list_answer
  list_apps q max_size g =
      let params = page_params q max_size in
      (
        g,
        list_answer app_item params (
            Apps.list_apps (record { status = q.get (codes "status") }) params.page_number
              params.page_size g.store),
      )

  unfoldable pub get_app : (id : Text) → ApiHandler R
  unfolding respond
  get_app id = respond (λ a. ok_answer (one (app_item a))) (Apps.get_app id)

  unfoldable pub update_app : Decoded AppRequest → (id : Text) → Time → ApiHandler R
  unfolding decoding respond
  update_app body id now =
      decoding body
        λ req. respond (λ a. ok_answer (one (app_item a))) (Apps.update_app id now (requested req))

  unfoldable pub delete_app : (id : Text) → ApiHandler R
  unfolding respond
  delete_app id = respond (λ _. no_content) (Apps.delete_app id)
