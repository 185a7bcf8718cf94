-- ===== src/Handler/Server/Access.antt =====
-- Which requests reach the management API and which the gateway.
use adaptive_api_routing_gat.Base.{
  ◌≡◌, refl, ap, ◌∙◌, ◌≤◌, true, not, ◌||◌, Text, codes, same, is_empty, has_prefix, len, width,
  Option, none, here, In-cases, inl, inr, ◌⊎◌, arith,
}
use adaptive_api_routing_gat.Base.Float.{Float}
use adaptive_api_routing_gat.Config.{Config}
use adaptive_api_routing_gat.Gateway.{Gateway}
use adaptive_api_routing_gat.Handler.Replies.{Reply, unauthorized, internal_error}
use adaptive_api_routing_gat.Handler.Proxy.{Request, Moments, Upstream}
use adaptive_api_routing_gat.Handler.Middleware.{admin_auth}
use adaptive_api_routing_gat.Handler.Api.{no_data, Response, Answer, answered, panicked, plain}
use adaptive_api_routing_gat.Handler.Server.{
  Front, admin, gateway, front_routes, Served, served, failed, cut_off, of_answer, Server, Printed,
  Layer, recovery_middleware, logging_middleware, admin_handler, dispatch, serve,
}
use adaptive_api_routing_gat.Handler.Server.Endpoints.{
  Mux, IsMux, Picked, to, by_mux, System, WebRequest, ApiDraws,
}

pub Picked-cases :
    {E : Type 0} (p : Picked E)
    → ((reply : Reply) × (p ≡ by_mux reply)) ⊎ ((e : E) × (value : Text) × (p ≡ to e value))
Picked-cases (by_mux reply) = inl (reply, refl)
Picked-cases (to e value) = inr (e, value, refl)

-- The path, as it was sent, lies under `/api/`.
abbrev pub IsApi : WebRequest → Type 0
IsApi r = has_prefix r.request.escaped_path (codes "/api/") ≡ true

-- The administrator's token is missing or is not the configured one.
abbrev pub IsUnknown : Config → WebRequest → Type 0
IsUnknown cfg r = (is_empty cfg.admin_token || not (same r.admin_token cfg.admin_token)) ≡ true

-- The request was not sent to a service.
abbrev pub IsKept : Served → Type 0
IsKept (served response forwarded) = forwarded ≡ none
IsKept failed = ⊥
IsKept (cut_off reply forwarded) = ⊥

abbrev entry : Text → Front → Text × Front
entry p e = (p, e)

of_entry : (p q : Text) (a b : Front) → entry p a ≡ entry q b → (p ≡ q) × (a ≡ b)
of_entry p q a b e = (ap (λ (o : Text × Front). o.0) e, ap (λ (o : Text × Front). o.1) e)

longer-ne-root : (q : Text) → q ≡ codes "/" → len (codes "/api/") ≤ len q → ⊥
unfolding len width
longer-ne-root q e h = ground arith

-- What the recovery makes of a result.
abbrev pub recovered : Served → Served
recovered (served response forwarded) = served response forwarded
recovered failed = of_answer (plain (internal_error (codes "服务器内部错误")))
recovered (cut_off reply forwarded) = served (record { reply = reply; content = no_data }) forwarded

recovered_answer-IsKept : (a : Answer) → IsKept (recovered (of_answer a))
recovered_answer-IsKept (answered response) = refl
recovered_answer-IsKept panicked = refl

pub Served-cases :
    (o : Served)
    → ((response : Response) × (forwarded : Option (Text × Text)) × (o ≡ served response forwarded))
      ⊎ ((o ≡ failed)
          ⊎ ((reply : Reply) × (forwarded : Option (Text × Text)) × (o ≡ cut_off reply forwarded)))
Served-cases (served response forwarded) = inl (response, forwarded, refl)
Served-cases failed = inr (inl refl)
Served-cases (cut_off reply forwarded) = inr (inr (reply, forwarded, refl))

module _ {R : Type 0} where
  -- The two layers keep the state of the service, and the result but for a panic.
  layers-result :
      (p : Printed) (r : Request) (next : Layer R) (s : Server R)
      → ((logging_middleware p r (recovery_middleware p next) s).0.service ≡ (next s).0.service)
        × ((logging_middleware p r (recovery_middleware p next) s).1 ≡ recovered (next s).1)
  unfolding logging_middleware recovery_middleware
  layers-result p r next s = elim (Served-cases (next s).1) [
    | inl (response, forwarded, e) ↦ (
      rw (e, logging_middleware, recovery_middleware),
      rw (e, logging_middleware, recovery_middleware),
    )
    | inr (inl e) ↦ (
      rw (e, logging_middleware, recovery_middleware),
      rw (e, logging_middleware, recovery_middleware),
    )
    | inr (inr (reply, forwarded, e)) ↦ (
      rw (e, logging_middleware, recovery_middleware),
      rw (e, logging_middleware, recovery_middleware),
    )
  ]

module _ {R : Type 0} ⦃f : Float R⦄ (mux : Mux) (sys : System) (up : Upstream) (cfg : Config)
    (r : WebRequest) (draws : ApiDraws) (m : Moments) (p : Printed) where
  -- The state and the result of the server are those of the outer mux, but for a panic.
  pub serve-dispatch :
      (s : Server R)
      → ((serve mux sys up cfg r draws m p s).0.service
          ≡ (dispatch mux sys up cfg r draws m s.service).0)
        × ((serve mux sys up cfg r draws m p s).1
            ≡ recovered (dispatch mux sys up cfg r draws m s.service).1)
  unfolding serve
  serve-dispatch s =
      layers-result p r.request
        (λ t.
          let (g, result) = dispatch mux sys up cfg r draws m t.service in
          (record t { service = g }, result))
        s

module _ {mux : Mux} (laws : IsMux mux) (r : WebRequest) where
  picked-admin :
      {e : Front} {value : Text}
      → IsApi r
      → mux.pick front_routes r.request.method r.request.escaped_path ≡ to e value
      → e ≡ admin
  unfolding has_prefix
  picked-admin {e = e} below picked =
      let (q, registered, longer) =
        laws.most_specific front_routes r.request.method r.request.escaped_path picked
          (codes "/api/") admin here (refl, (codes "/api", refl), refl) below in
      elim (In-cases registered) [
        | inl first ↦ (of_entry q (codes "/api/") e admin first).1
        | inr rest ↦ elim (In-cases rest) [
          | inl second ↦
              absurd (longer-ne-root q (of_entry q (codes "/") e gateway second).0 longer)
          | inr nowhere ↦ elim nowhere [ ]
        ]
      ]

module _ {R : Type 0} ⦃f : Float R⦄ {mux : Mux} (laws : IsMux mux) (sys : System) (up : Upstream)
    (cfg : Config) (r : WebRequest) (draws : ApiDraws) (m : Moments) (p : Printed) where
  -- Without the token, the outer mux or the check of the token answers.
  dispatch-unauthorized :
      (g : Gateway R)
      → IsApi r
      → IsUnknown cfg r
      → (reply : Reply) × (dispatch mux sys up cfg r draws m g ≡ (g, of_answer (plain reply)))
  unfolding dispatch admin_auth
  dispatch-unauthorized g below unknown =
      elim (Picked-cases (mux.pick front_routes r.request.method r.request.escaped_path)) [
        | inl (reply, own) ↦ (reply, rw (own, dispatch))
        | inr (e, value, picked) ↦
            let is_admin = picked-admin laws r below picked in
            (unauthorized (codes "无效的管理员令牌"), rw (picked, is_admin, dispatch, unknown))
      ]

  dispatch-kept :
      (g : Gateway R)
      → IsApi r
      → (a : Answer) × ((dispatch mux sys up cfg r draws m g).1 ≡ of_answer a)
  unfolding dispatch
  dispatch-kept g below =
      elim (Picked-cases (mux.pick front_routes r.request.method r.request.escaped_path)) [
        | inl (reply, own) ↦ (plain reply, rw (own, dispatch))
        | inr (e, value, picked) ↦
            let is_admin = picked-admin laws r below picked in
            (
              (admin_auth plain cfg.admin_token r.admin_token (admin_handler mux sys up cfg r draws)
                  g).1,
              rw (picked, is_admin, dispatch),
            )
      ]

  -- A request whose path, as it was sent, starts with `/api/` and that has not the administrator's
  -- token is answered with one plain reply and changes nothing but the log; it is not sent to a
  -- service.
  pub serve-unauthorized :
      (s : Server R)
      → IsApi r
      → IsUnknown cfg r
      → (reply : Reply) × ((serve mux sys up cfg r draws m p s).0.service ≡ s.service)
        × ((serve mux sys up cfg r draws m p s).1 ≡ of_answer (plain reply))
  unfolding serve
  serve-unauthorized s below unknown =
      let (reply, e) = dispatch-unauthorized s.service below unknown in
      let (same_state, result) = serve-dispatch mux sys up cfg r draws m p s in
      (reply, same_state ∙ ap (λ o. o.0) e, result ∙ ap (λ o. recovered o.1) e)

  -- No request whose path, as it was sent, starts with `/api/` is ever sent to a service, whatever routes are stored.
  pub serve-IsKept : (s : Server R) → IsApi r → IsKept (serve mux sys up cfg r draws m p s).1
  serve-IsKept s below =
      let (a, e) = dispatch-kept s.service below in
      let result = (serve-dispatch mux sys up cfg r draws m p s).1 ∙ ap recovered e in
      rw result (recovered_answer-IsKept a)
