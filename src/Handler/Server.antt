-- ===== src/Handler/Server.antt =====
-- internal/handler/server.go: the server, from the patterns that its handlers are registered under
-- to its reply. `http.ServeMux`, which picks a handler by method and path, is a parameter.
pub mod Endpoints
pub mod Access
pub mod Reads
pub mod Listed
pub mod Refusals
pub mod ReadBack
pub mod Deletions
pub mod Sound
pub mod Saved
use adaptive_api_routing_gat.Base.{
  ℕ, ◌≤◌, ◌≡◌, true, ◌++◌, Text, codes, is_empty, has_prefix, len, Option, none, some, List, [],
  ◌∷◌, In, if◌then◌else◌,
}
use adaptive_api_routing_gat.Base.Int.{ℤ, pos, ltb_ℤ}
use adaptive_api_routing_gat.Base.Time.{Time}
use adaptive_api_routing_gat.Base.Float.{Float}
use adaptive_api_routing_gat.Config.{Config}
use adaptive_api_routing_gat.Logger.{Logger, infof, errorf}
use adaptive_api_routing_gat.Gateway.{Gateway}
use adaptive_api_routing_gat.Handler.Replies.{Reply, internal_error}
use adaptive_api_routing_gat.Handler.Proxy.{Request, Moments, Upstream, Outcome, gateway_handler}
use adaptive_api_routing_gat.Handler.Middleware.{admin_auth}
use adaptive_api_routing_gat.Handler.Api.{
  no_data, Response, Answer, answered, panicked, plain, ApiHandler,
}
use adaptive_api_routing_gat.Handler.Server.Endpoints.{
  Mux, to, by_mux, Endpoint, admin_routes, System, WebRequest, ApiDraws, serve_endpoint,
}

-- `s.cfg` is never nil: `Routes` reads the token from it.
unfoldable pub max_page_size : Config → ℤ
max_page_size cfg = if ltb_ℤ (pos 0) cfg.max_page_size then cfg.max_page_size else pos 100

-- The two handlers of the outer mux.
pub data Front : Type 0 where
  admin gateway : Front

abbrev pub front_routes : List (Text × Front)
front_routes = (codes "/api/", admin) ∷ (codes "/", gateway) ∷ []

-- What a request led to: the response, and where it was forwarded to, if it was; a panic before
-- anything was written; or one while the reply of a service was copied, after its status was sent.
pub data Served : Type 0 where
  served : Response → Option (Text × Text) → Served
  failed : Served
  cut_off : Reply → (forwarded : Option (Text × Text)) → Served

abbrev pub of_answer : Answer → Served
of_answer (answered response) = served response none
of_answer panicked = failed

abbrev pub of_outcome : Outcome → Served
of_outcome o =
    if o.aborted
    then cut_off o.reply o.forwarded
    else served (record { reply = o.reply; content = no_data }) o.forwarded

pub record Server (R : Type 0) : Type 0 where
  pub service : Gateway R
  pub log : Logger

-- What the two outer layers print: the text of a panic with its stack, and the time that a request
-- took.
pub record Printed : Type 0 where
  pub panic : Text
  pub elapsed : Text

-- A handler with its logger; the layers around it hand the request on.
abbrev pub Layer : Type 0 → Type 0
Layer R = Server R → Server R × Served

module _ {R : Type 0} where
  -- The status that was sent before a panic stays; the error is then written behind the body.
  unfoldable pub recovery_middleware : Printed → Layer R → Layer R
  recovery_middleware p next s =
      let (s', result) = next s in
      elim result [
        | served response forwarded ↦ (s', served response forwarded)
        | cut_off reply forwarded ↦ (
          record s' { log = errorf (codes "panic: " ++ p.panic) s'.log },
          served (record { reply = reply; content = no_data }) forwarded,
        )
        | failed ↦ (
          record s' { log = errorf (codes "panic: " ++ p.panic) s'.log },
          of_answer (plain (internal_error (codes "服务器内部错误"))),
        )
      ]

  unfoldable pub logging_middleware : Printed → Request → Layer R → Layer R
  logging_middleware p r next s =
      let (s', result) = next s in
      let line = r.method ++ (codes " " ++ (r.path ++ (codes " " ++ p.elapsed))) in
      (record s' { log = infof line s'.log }, result)

module _ {R : Type 0} ⦃f : Float R⦄ (mux : Mux) (sys : System) (up : Upstream) (cfg : Config) where
  -- The mux of the management API.
  unfoldable pub admin_handler : WebRequest → ApiDraws → ApiHandler R
  admin_handler r draws g = elim (mux.pick admin_routes r.request.method r.request.escaped_path) [
    | by_mux reply ↦ (g, plain reply)
    | to e value ↦ serve_endpoint sys (max_page_size cfg) r draws e value g
  ]

  -- The outer mux.
  unfoldable pub dispatch : WebRequest → ApiDraws → Moments → Gateway R → Gateway R × Served
  dispatch r draws m g = elim (mux.pick front_routes r.request.method r.request.escaped_path) [
    | by_mux reply ↦ (g, of_answer (plain reply))
    | to gateway _ ↦
        let (g', outcome) = gateway_handler up r.request m g in (g', of_outcome outcome)
    | to admin _ ↦
        let (g', answer) =
          admin_auth plain cfg.admin_token r.admin_token (admin_handler r draws) g in
        (g', of_answer answer)
  ]

  -- The handler that `Routes` answers.
  unfoldable pub serve : WebRequest → ApiDraws → Moments → Printed → Layer R
  unfolding dispatch recovery_middleware logging_middleware
  serve r draws m p = logging_middleware p r.request (
      recovery_middleware p
        λ s. let (g, result) = dispatch r draws m s.service in (record s { service = g }, result))
