-- ===== src/Tests/Servers.antt =====
-- Requests to the server.
use adaptive_api_routing_gat.Base.{
  lookup, delete, err_not_found, ◌≡◌, refl, ap, true, none, length, Text, codes, same, trim_space,
  has_prefix, [], here, there, arith,
}
use adaptive_api_routing_gat.Store.Table.{remove, create}
use adaptive_api_routing_gat.Handler.Api.{
  no_content, app_item, one, plain, decoded, malformed, created, ok_answer, respond, decoding,
}
use adaptive_api_routing_gat.Handler.Server.Deletions.{deleted-missing}
use adaptive_api_routing_gat.Base.Int.{pos, ◌≤ℤ◌}
use adaptive_api_routing_gat.Base.Float.{Nanos, nanos_float}
use adaptive_api_routing_gat.Config.{Config}
use adaptive_api_routing_gat.Model.Apps.{App, app_active, validate}
use adaptive_api_routing_gat.Store.Entities
use adaptive_api_routing_gat.Gateway.{Gateway}
use adaptive_api_routing_gat.Gateway.Admin.Apps as AppService
use adaptive_api_routing_gat.Handler.Replies.{Reply, write_service_error}
use adaptive_api_routing_gat.Handler.Proxy.{Upstream, unreachable}
use adaptive_api_routing_gat.Handler.Api.Apps as AppApi
use adaptive_api_routing_gat.Handler.Server.{Server, Printed, serve, of_answer, max_page_size}
use adaptive_api_routing_gat.Handler.Server.Endpoints.{
  Endpoint, System, WebRequest, ApiDraws, serve_endpoint,
}
use adaptive_api_routing_gat.Handler.Server.Access.{IsKept, serve-unauthorized, serve-IsKept}
use adaptive_api_routing_gat.Handler.Server.Reads.{get-unchanged}
use adaptive_api_routing_gat.Handler.Server.Listed.{page_items, serve-length}
use adaptive_api_routing_gat.Handler.Server.Refusals.{refused-unchanged}
use adaptive_api_routing_gat.Handler.Server.ReadBack.{created-found}
use adaptive_api_routing_gat.Handler.Server.Saved.{content_of, saved-IsValidItem}
use adaptive_api_routing_gat.Model.Valid.{IsApp}
use adaptive_api_routing_gat.Tests.Samples.{store}
use adaptive_api_routing_gat.Tests.Requests.{request, moments}
use adaptive_api_routing_gat.Tests.Muxes.{longest_mux, longest_mux-IsMux}

abbrev gateway : Gateway Nanos
gateway = record { store = store; buckets = []; breakers = [] }

abbrev server : Server Nanos
server = record { service = gateway; log = record { level = pos 1; lines = [] } }

-- Every body asks for an app of this name, and none is understood otherwise.
abbrev system_for : Text → System
system_for name = record {
  decode_service = λ _. malformed (codes "EOF");
  decode_route = λ _. malformed (codes "EOF");
  decode_app = λ _. decoded (record { name = name; status = [] });
  decode_api_key = λ _. malformed (codes "EOF");
  decode_status = λ _. malformed (codes "EOF");
  decode_rule = λ _. malformed (codes "EOF");
  decode_services = λ _. malformed (codes "EOF");
  decode_rules = λ _. malformed (codes "EOF");
  lower = λ c. c;
  upper = λ c. c;
  parse_time = λ _. none;
  network = λ url timeout. (none, 0);
}

abbrev pub upstream : Upstream
upstream = record { base_path = λ url. none; answer = λ url path. unreachable }

abbrev pub config : Config
config = record {
  addr = codes ":8080";
  max_page_size = pos 100;
  admin_token = codes "admin-secret";
  health_check_interval = pos 30;
}

-- A request for `/api/users/7` without the administrator's token.
abbrev pub web_request : WebRequest
web_request = record {
  request = request;
  admin_token = [];
  query = record { get = λ _. []; atoi = λ _. pos 0 };
  body = [];
}

abbrev pub draws : ApiDraws
draws = record {
  id = codes "a2";
  second_id = codes "h2";
  now = 60;
  validated_at = 61;
  imports = λ i. (codes "i", codes "h", 62);
}

abbrev pub printed : Printed
printed = record { panic = codes "boom"; elapsed = codes "1ms" }

abbrev pub shop_system : System
shop_system = system_for (codes "shop")

abbrev cafe_system : System
cafe_system = system_for (codes "cafe")

is_api : has_prefix web_request.request.escaped_path (codes "/api/") ≡ true
unfolding has_prefix
is_api = refl

serve-unauthorized_example :
    (reply : Reply) × ((serve longest_mux shop_system upstream config web_request draws moments
        printed server).0.service
      ≡ gateway)
    × ((serve longest_mux shop_system upstream config web_request draws moments printed server).1
        ≡ of_answer (plain reply))
unfolding same
serve-unauthorized_example =
    serve-unauthorized longest_mux-IsMux shop_system upstream config web_request draws moments
      printed server is_api refl

serve-IsKept_example :
    IsKept
      (serve longest_mux shop_system upstream config web_request draws moments printed server).1
serve-IsKept_example =
    serve-IsKept longest_mux-IsMux shop_system upstream config web_request draws moments printed
      server is_api

serve-length_example :
    pos (
      length (
        page_items
          (serve longest_mux shop_system upstream config web_request draws moments printed
            server).1))
    ≤ℤ max_page_size config
serve-length_example =
    serve-length longest_mux shop_system upstream config web_request draws moments printed server

get-unchanged_example :
    (serve_endpoint shop_system (pos 100) web_request draws Endpoint.list_services [] gateway).0
    ≡ gateway
unfolding has_prefix
get-unchanged_example =
    get-unchanged shop_system (pos 100) web_request draws (codes "GET /api/services")
      Endpoint.list_services [] gateway (there here) refl

-- The name is taken.
refused-unchanged_example :
    (serve_endpoint shop_system (pos 100) web_request draws Endpoint.create_app [] gateway).0
    ≡ gateway
unfolding serve_endpoint decoding respond AppApi.create_app AppService.create_app validate
    Entities.create_app create same trim_space write_service_error created
refused-unchanged_example =
    refused-unchanged shop_system (pos 100) web_request draws Endpoint.create_app [] gateway refl
      (omega arith)

abbrev cafe : App
cafe = record {
  id = codes "a2";
  name = codes "cafe";
  status = app_active;
  created_at = 60;
  updated_at = 60;
}

cafe_accepted :
    (serve_endpoint cafe_system (pos 100) web_request draws Endpoint.create_app [] gateway).1
    ≡ created (one (app_item cafe))
unfolding serve_endpoint decoding respond AppApi.create_app AppService.create_app validate
    Entities.create_app create same trim_space write_service_error created
cafe_accepted = refl

created-found_example :
    (serve_endpoint cafe_system
      (pos 100)
      web_request
      draws
      Endpoint.get_app
      (codes "a2")
      (serve_endpoint cafe_system (pos 100) web_request draws Endpoint.create_app [] gateway).0).1
    ≡ ok_answer (one (app_item cafe))
created-found_example =
    created-found cafe_system (pos 100) web_request draws Endpoint.create_app [] gateway
      (app_item cafe) cafe_accepted

cafe_answered :
    content_of
      (serve_endpoint cafe_system (pos 100) web_request draws Endpoint.create_app [] gateway).1
    ≡ one (app_item cafe)
unfolding created
cafe_answered = ap content_of cafe_accepted

saved-IsValidItem_example : IsApp cafe
saved-IsValidItem_example =
    saved-IsValidItem cafe_system (pos 100) web_request draws Endpoint.create_app [] gateway
      (app_item cafe) refl cafe_answered

shop_deleted :
    (serve_endpoint shop_system
      (pos 100)
      web_request
      draws
      Endpoint.delete_app
      (codes "a1")
      gateway).1
    ≡ no_content
unfolding serve_endpoint respond AppApi.delete_app AppService.delete_app Entities.delete_app remove
    lookup delete same no_content
shop_deleted = refl

deleted-missing_example :
    (serve_endpoint shop_system
      (pos 100)
      web_request
      draws
      Endpoint.get_app
      (codes "a1")
      (serve_endpoint shop_system
        (pos 100)
        web_request
        draws
        Endpoint.delete_app
        (codes "a1")
        gateway).0).1
    ≡ plain (write_service_error err_not_found)
deleted-missing_example =
    deleted-missing shop_system (pos 100) web_request draws Endpoint.delete_app (codes "a1") gateway
      shop_deleted
