-- ===== src/Handler/Server/Listed.antt =====
-- How many items a page that the management API answers with has.
use adaptive_api_routing_gat.Base.{
  ◌≡◌, refl, Text, codes, inl, inr, List, length, map, [], ◌∷◌, arith,
}
use adaptive_api_routing_gat.Base.Int.{ℤ, pos, ◌≤ℤ◌}
use adaptive_api_routing_gat.Base.Float.{Float}
use adaptive_api_routing_gat.Config.{Config}
use adaptive_api_routing_gat.Gateway.{Gateway}
use adaptive_api_routing_gat.Gateway.Admin.Services
use adaptive_api_routing_gat.Gateway.Admin.Routes
use adaptive_api_routing_gat.Gateway.Admin.Apps
use adaptive_api_routing_gat.Gateway.Admin.Rules
use adaptive_api_routing_gat.Gateway.Admin.Health
use adaptive_api_routing_gat.Gateway.Paging.{Page, page, panic, PageParams, paginate}
use adaptive_api_routing_gat.Gateway.Paging.Sizes.{count, paginate-count_le}
use adaptive_api_routing_gat.Handler.Proxy.{Moments, Upstream, Outcome, gateway_handler}
use adaptive_api_routing_gat.Handler.Middleware.{admin_auth}
use adaptive_api_routing_gat.Handler.Api.{
  Item, Payload, page_result, Answer, answered, panicked, Query, page_params, list_answer, respond,
  decoding, ok_answer, created, no_content,
}
use adaptive_api_routing_gat.Handler.Api.Services as ServiceApi
use adaptive_api_routing_gat.Handler.Api.Routes as RouteApi
use adaptive_api_routing_gat.Handler.Api.Apps as AppApi
use adaptive_api_routing_gat.Handler.Api.ApiKeys
use adaptive_api_routing_gat.Handler.Api.Rules as RuleApi
use adaptive_api_routing_gat.Handler.Api.Reports
use adaptive_api_routing_gat.Handler.Server.{
  Front, admin, gateway, front_routes, Served, served, failed, cut_off, of_answer, of_outcome,
  Server, Printed, max_page_size, admin_handler, dispatch, serve,
}
use adaptive_api_routing_gat.Handler.Server.Access.{recovered, serve-dispatch, Picked-cases}
use adaptive_api_routing_gat.Handler.Server.Endpoints.{
  Mux, to, Endpoint, admin_routes, System, WebRequest, ApiDraws, serve_endpoint,
}

-- The items of the page of a list, in a payload and in what was made of a request. An export, the
-- statistics and the result of an import are no pages.
abbrev pub page_of : Payload → List Item
page_of (page_result items params total) = items
page_of _ = []

abbrev pub page_items : Served → List Item
page_items (served response forwarded) = page_of response.content
page_items failed = []
page_items (cut_off reply forwarded) = []

abbrev answer_items : Answer → List Item
answer_items (answered response) = page_of response.content
answer_items panicked = []

length-map : {A B : Type 0} (h : A → B) (xs : List A) → length (map h xs) ≡ length xs
length-map h [] = refl
length-map h (x ∷ xs) = omega (arith, length-map h xs)

length-list_answer :
    {A : Type 0} (to_item : A → Item) (params : PageParams) (result : Page A)
    → length (answer_items (list_answer to_item params result)) ≡ count result
unfolding list_answer ok_answer
length-list_answer to_item params (page items total) = length-map to_item items
length-list_answer to_item params panic = refl

-- What `paginate` makes of the parameters of a request.
list_answer-le :
    {A : Type 0} (to_item : A → Item) (q : Query) (max_size : ℤ) (xs : List A)
    → pos 1 ≤ℤ max_size
    → pos (
        length (
          answer_items (
            list_answer to_item (page_params q max_size) (
              paginate xs
                (page_params q max_size).page_number
                (page_params q max_size).page_size))))
      ≤ℤ max_size
unfolding page_params
list_answer-le to_item q max_size xs positive =
    let params = page_params q max_size in
    rw (length-list_answer to_item params (paginate xs params.page_number params.page_size)) (
      paginate-count_le xs (q.atoi (q.get (codes "page"))) (q.atoi (q.get (codes "size"))) max_size
        positive)

module _ {R : Type 0} where
  module _ (sys : System) (max_size : ℤ) (r : WebRequest) (d : ApiDraws)
      (positive : pos 1 ≤ℤ max_size) where
    abbrev Fits : Endpoint → Text → Gateway R → Type 0
    Fits e value g =
        pos (length (answer_items (serve_endpoint sys max_size r d e value g).1)) ≤ℤ max_size

    serve_endpoint-Fits : (e : Endpoint) (value : Text) (g : Gateway R) → Fits e value g
    unfolding serve_endpoint ok_answer created no_content respond decoding ApiKeys.create_api_key
        RuleApi.update_rate_limit_rule ServiceApi.list_services RouteApi.list_routes
        AppApi.list_apps ApiKeys.list_api_keys RuleApi.list_rate_limit_rules
        Reports.list_request_logs Reports.list_health_checks ServiceApi.create_service
        ServiceApi.update_service RouteApi.create_route RouteApi.update_route AppApi.create_app
        AppApi.update_app ApiKeys.update_api_key_status RuleApi.create_rate_limit_rule
        ServiceApi.get_service ServiceApi.delete_service RouteApi.get_route RouteApi.delete_route
        AppApi.get_app AppApi.delete_app ApiKeys.get_api_key ApiKeys.delete_api_key
        RuleApi.get_rate_limit_rule RuleApi.delete_rate_limit_rule Reports.get_request_log
        Reports.get_health_check Reports.probe_service Services.list_services Routes.list_routes
        Apps.list_apps Apps.list_api_keys Rules.list_rate_limit_rules Health.list_request_logs
        Health.list_health_checks Reports.get_stats Reports.export_config Reports.import_services
        Reports.import_rate_limit_rules
    serve_endpoint-Fits Endpoint.list_services value g =
        list_answer-le _ r.query max_size _ positive
    serve_endpoint-Fits Endpoint.list_routes value g = list_answer-le _ r.query max_size _ positive
    serve_endpoint-Fits Endpoint.list_apps value g = list_answer-le _ r.query max_size _ positive
    serve_endpoint-Fits Endpoint.list_api_keys value g =
        list_answer-le _ r.query max_size _ positive
    serve_endpoint-Fits Endpoint.list_rate_limit_rules value g =
        list_answer-le _ r.query max_size _ positive
    serve_endpoint-Fits Endpoint.list_request_logs value g =
        list_answer-le _ r.query max_size _ positive
    serve_endpoint-Fits Endpoint.list_health_checks value g =
        list_answer-le _ r.query max_size _ positive
    serve_endpoint-Fits _ value g = ground arith

max_page_size-positive : (cfg : Config) → pos 1 ≤ℤ max_page_size cfg
unfolding max_page_size
max_page_size-positive cfg = ground arith

page_items-of_answer : (a : Answer) → page_items (of_answer a) ≡ answer_items a
page_items-of_answer (answered response) = refl
page_items-of_answer panicked = refl

page_items-recovered : (o : Served) → page_items (recovered o) ≡ page_items o
page_items-recovered (served response forwarded) = refl
page_items-recovered failed = refl
page_items-recovered (cut_off reply forwarded) = refl

page_items-of_outcome : (o : Outcome) → page_items (of_outcome o) ≡ []
page_items-of_outcome o = ground arith

module _ {R : Type 0} ⦃f : Float R⦄ (mux : Mux) (sys : System) (up : Upstream) (cfg : Config)
    (r : WebRequest) (draws : ApiDraws) (m : Moments) (p : Printed) where
  admin_handler-length :
      (g : Gateway R)
      → pos (length (answer_items (admin_handler mux sys up cfg r draws g).1)) ≤ℤ max_page_size cfg
  unfolding admin_handler
  admin_handler-length g =
      let positive = max_page_size-positive cfg in
      elim (Picked-cases (mux.pick admin_routes r.request.method r.request.escaped_path)) [
        | inl (reply, own) ↦ rw (own, admin_handler) (omega arith)
        | inr (e, value, picked) ↦
            rw (picked, admin_handler)
              (serve_endpoint-Fits sys (max_page_size cfg) r draws positive e value g)
      ]

  picked-length :
      (e : Front) (value : Text) (g : Gateway R)
      → mux.pick front_routes r.request.method r.request.escaped_path ≡ to e value
      → pos (length (page_items (dispatch mux sys up cfg r draws m g).1)) ≤ℤ max_page_size cfg
  unfolding dispatch admin_auth
  picked-length gateway value g picked =
      rw (picked, dispatch, page_items-of_outcome (gateway_handler up r.request m g).1)
        (omega (arith, max_page_size-positive cfg))
  picked-length admin value g picked =
      let answered = admin_handler-length g in
      let positive = max_page_size-positive cfg in
      ground (arith, page_items-of_answer (admin_handler mux sys up cfg r draws g).1)

  dispatch-length :
      (g : Gateway R)
      → pos (length (page_items (dispatch mux sys up cfg r draws m g).1)) ≤ℤ max_page_size cfg
  unfolding dispatch
  dispatch-length g =
      elim (Picked-cases (mux.pick front_routes r.request.method r.request.escaped_path)) [
        | inl (reply, own) ↦ rw (own, dispatch) (omega (arith, max_page_size-positive cfg))
        | inr (e, value, picked) ↦ picked-length e value g picked
      ]

  -- The page of a list that the server answers with has at most as many items as the page size that
  -- is configured, or 100 where that is not positive.
  pub serve-length :
      (s : Server R)
      → pos (length (page_items (serve mux sys up cfg r draws m p s).1)) ≤ℤ max_page_size cfg
  serve-length s =
      rw
        (
          (serve-dispatch mux sys up cfg r draws m p s).1,
          page_items-recovered (dispatch mux sys up cfg r draws m s.service).1,
        )
        (dispatch-length s.service)
