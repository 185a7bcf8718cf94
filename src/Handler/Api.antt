-- ===== src/Handler/Api.antt =====
-- The management handlers of internal/handler: what they have in common. A handler decodes the
-- request, calls an operation of the service and answers what it made. `encoding/json`, which
-- decodes a body and encodes an answer, is left out: a handler gets the decoded body or the text
-- of the error, and answers the value that is encoded.
pub mod Services
pub mod Routes
pub mod Apps
pub mod ApiKeys
pub mod Rules
pub mod Reports
pub mod Bodies
use adaptive_api_routing_gat.Base.{ℕ, ◌++◌, Text, codes, List, [], map, Error, ok, err}
use adaptive_api_routing_gat.Base.Int.{ℤ, pos}
use adaptive_api_routing_gat.Model.Services.{Service}
use adaptive_api_routing_gat.Model.Routes.{Route}
use adaptive_api_routing_gat.Model.Apps.{App}
use adaptive_api_routing_gat.Model.ApiKeys.{ApiKey}
use adaptive_api_routing_gat.Model.Rules.{RateLimitRule}
use adaptive_api_routing_gat.Model.Logs.{RequestLog}
use adaptive_api_routing_gat.Model.HealthChecks.{HealthCheck}
use adaptive_api_routing_gat.Gateway.{Gateway}
use adaptive_api_routing_gat.Gateway.Admin.{Action}
use adaptive_api_routing_gat.Gateway.Paging.{Page, page, panic, PageParams, parse_pagination}
use adaptive_api_routing_gat.Gateway.Stats.{GatewayStats}
use adaptive_api_routing_gat.Gateway.Transfer.{ConfigSnapshot}
use adaptive_api_routing_gat.Handler.Replies.{Reply, bad_request, write_service_error}

pub data Item : Type 0 where
  service_item : Service → Item
  route_item : Route → Item
  app_item : App → Item
  key_item : ApiKey → Item
  rule_item : RateLimitRule → Item
  log_item : RequestLog → Item
  health_item : HealthCheck → Item

-- What stands in the field `data` of an answer.
pub data Payload : Type 0 where
  no_data : Payload
  one : Item → Payload
  page_result : List Item → PageParams → (total : ℕ) → Payload
  statistics : GatewayStats → Payload
  snapshot : ConfigSnapshot → Payload
  imported : ℕ → List Text → Payload

-- An answer that has no body has the code 0, no message and no data.
pub record Response : Type 0 where
  pub reply : Reply
  pub content : Payload

-- How a handler ends.
pub data Answer : Type 0 where
  answered : Response → Answer
  panicked : Answer

abbrev pub plain : Reply → Answer
plain reply = answered (record { reply = reply; content = no_data })

-- `OK`
unfoldable pub ok_answer : Payload → Answer
ok_answer content =
    answered (record {
      reply = record { status = 200; code = 0; message = codes "ok" };
      content = content;
    })

-- `Created`
unfoldable pub created : Payload → Answer
created content =
    answered (record {
      reply = record { status = 201; code = 0; message = codes "ok" };
      content = content;
    })

unfoldable pub no_content : Answer
no_content = plain (record { status = 204; code = 0; message = [] })

-- What `Decode` makes of a body: a request, or the text of an error.
pub data Decoded (A : Type 0) : Type 0 where
  malformed : Text → Decoded A
  decoded : A → Decoded A

-- The query of a URL, with the `int` that `strconv.Atoi` answers for a text: 0 for a bad one, the
-- nearest `int` for a number that is too large.
pub record Query : Type 0 where
  pub get : Text → Text
  pub atoi : Text → ℤ

-- `ParsePagination` of a request.
unfoldable pub page_params : Query → (max_size : ℤ) → PageParams
page_params q max_size =
    parse_pagination (q.atoi (q.get (codes "page"))) (q.atoi (q.get (codes "size"))) (pos 20)
      max_size

-- The answer to a list request.
unfoldable pub list_answer : {A : Type 0} → (A → Item) → PageParams → Page A → Answer
unfolding ok_answer
list_answer to_item params (page items total) =
    ok_answer (page_result (map to_item items) params total)
list_answer to_item params panic = panicked

abbrev pub ApiHandler : Type 0 → Type 0
ApiHandler R = Gateway R → Gateway R × Answer

module _ {R : Type 0} where
  -- An operation on the store, and the answer for its result or its error.
  unfoldable pub respond : {A : Type 0} → (A → Answer) → Action A → ApiHandler R
  respond to_answer act g =
      let (s, result) = act g.store in
      (
        record g { store = s },
        elim result [ ok a ↦ to_answer a | err e ↦ plain (write_service_error e) ],
      )

  unfoldable pub decoding : {A : Type 0} → Decoded A → (A → ApiHandler R) → ApiHandler R
  decoding (malformed text) next g = (g, plain (bad_request (codes "请求体解析失败: " ++ text)))
  decoding (decoded request) next g = next request g
