-- ===== src/Process.antt =====
-- cmd/server/main.go: the process, from its start to its end, as a step relation of the main
-- goroutine, the goroutine that listens, the health checker and the goroutines that answer requests.
-- `net/http` and `os/signal` decide which step comes next. `print_int` and `print_duration` are what
-- `fmt` makes of an `int` and of a duration. `app.New` never answers an error.
pub mod Orderly
pub mod Sound
use adaptive_api_routing_gat.Base.{
  ℕ, zero, suc, ◌+◌, ◌≡◌, ◌≢◌, ◌++◌, Bool, true, false, Option, none, some, Text, codes,
}
use adaptive_api_routing_gat.Base.Int.{ℤ}
use adaptive_api_routing_gat.Base.Float.{Float}
use adaptive_api_routing_gat.Config.{Config, load}
use adaptive_api_routing_gat.Logger.{Logger, parse_level, new_level, infof, errorf}
use adaptive_api_routing_gat.Store.Memory.{MemoryStore}
use adaptive_api_routing_gat.Gateway.{Gateway}
use adaptive_api_routing_gat.Gateway.Admin.Checker
use adaptive_api_routing_gat.Gateway.Admin.Checker.{Checker, Mode, selecting, check_interval}
use adaptive_api_routing_gat.Handler.Proxy.{Moments, Upstream}
use adaptive_api_routing_gat.Handler.Server.{Server, Printed, serve}
use adaptive_api_routing_gat.Handler.Server.Endpoints.{Mux, System, WebRequest, ApiDraws}
use adaptive_api_routing_gat.App.{new_app, health_check_period}

-- Before the signal, between the signal and `cancel`, and in `Shutdown` or behind it.
pub data Stage : Type 0 where
  awaiting_signal closing shutting_down : Stage

-- The goroutine that listens: before its log line, before it accepts requests, accepting them; and
-- after `Shutdown` has closed the server.
pub data Listener : Type 0 where
  starting announced listening closed : Listener

pub record Process (R : Type 0) : Type 0 where
  pub server : Server R
  pub checker : Mode
  pub cancelled : Bool
  pub listener : Listener
  pub stage : Stage
  pub exit_status : Option ℕ

abbrev pub logged : {R : Type 0} → (Logger → Logger) → Process R → Process R
logged f p = record p { server = record p.server { log = f p.server.log } }

-- `main`, until the goroutine that listens is started.
unfoldable pub start :
    {R : Type 0}
    → (getenv : Text → Text) (atoi : Text → Option ℤ) (print_int print_duration : ℤ → Text)
    → Process R
unfolding load parse_level new_level new_app health_check_period check_interval infof
start getenv atoi print_int print_duration =
    let cfg = load getenv atoi in
    let log = new_level (parse_level (getenv (codes "LOG_LEVEL"))) in
    let app = new_app print_int cfg log in
    let interval = check_interval (health_check_period cfg) in
    let line = codes "健康检查循环已启动，间隔 " ++ print_duration interval in
    record {
      server = record app { log = infof line app.log };
      checker = selecting;
      cancelled = false;
      listener = starting;
      stage = awaiting_signal;
      exit_status = none;
    }

-- The health checker of a process, on the store that it shares with the requests.
abbrev pub checker_of : {R : Type 0} → Process R → Checker
checker_of p = record { store = p.server.service.store; cancelled = p.cancelled; mode = p.checker }

abbrev pub with_checker : {R : Type 0} → Checker → Process R → Process R
with_checker c p = record p {
  server = record p.server { service = record p.server.service { store = c.store } };
  checker = c.mode;
}

-- `if err := srv.Shutdown(…); err != nil { … }`
abbrev pub shut_down_result : Option Text → Logger → Logger
shut_down_result none log = log
shut_down_result (some e) log = errorf (codes "服务关闭失败: " ++ e) log

-- One step of one goroutine. None follows the end of the process. A request is answered in one
-- step; one that was accepted may be answered while the server shuts down.
pub data Step {R : Type 0} ⦃f : Float R⦄ (mux : Mux) (sys : System) (up : Upstream) (cfg : Config)
    : Process R → Process R → Type 0 where
  announce :
      {p : Process R}
      → p.exit_status ≡ none
      → p.listener ≡ starting
      → Step mux sys up cfg p
          (record (logged (infof (codes "API 网关已启动，监听 " ++ cfg.addr)) p) { listener = announced })
  listen :
      {p : Process R}
      → p.exit_status ≡ none
      → p.listener ≡ announced
      → Step mux sys up cfg p (record p { listener = listening })
  listen_fails :
      {p : Process R} (e : Text)
      → p.exit_status ≡ none
      → p.listener ≢ starting
      → p.listener ≢ closed
      → Step mux sys up cfg p
          (record (logged (errorf (codes "服务启动失败: " ++ e)) p) { exit_status = some 1 })
  answer :
      {p : Process R} (r : WebRequest) (draws : ApiDraws) (m : Moments) (printed : Printed)
      → p.exit_status ≡ none
      → p.listener ≢ starting
      → p.listener ≢ announced
      → Step mux sys up cfg p
          (record p { server = (serve mux sys up cfg r draws m printed p.server).0 })
  check :
      {p : Process R} {c : Checker}
      → p.exit_status ≡ none
      → Checker.Step sys.network (checker_of p) c
      → c.cancelled ≡ p.cancelled
      → Step mux sys up cfg p (with_checker c p)
  signal :
      {p : Process R}
      → p.exit_status ≡ none
      → p.stage ≡ awaiting_signal
      → Step mux sys up cfg p (record (logged (infof (codes "正在关闭服务...")) p) { stage = closing })
  cancel :
      {p : Process R}
      → p.exit_status ≡ none
      → p.stage ≡ closing
      → Step mux sys up cfg p (record p { cancelled = true; stage = shutting_down })
  close :
      {p : Process R}
      → p.exit_status ≡ none
      → p.stage ≡ shutting_down
      → Step mux sys up cfg p (record p { listener = closed })
  finish :
      {p : Process R} (failure : Option Text)
      → p.exit_status ≡ none
      → p.stage ≡ shutting_down
      → p.listener ≡ closed
      → Step mux sys up cfg p
          (record (logged (λ log. infof (codes "服务已关闭") (shut_down_result failure log)) p) {
            exit_status = some 0;
          })

module _ {R : Type 0} ⦃f : Float R⦄ (mux : Mux) (sys : System) (up : Upstream) (cfg : Config) where
  -- A run of some number of steps.
  pub data Run : ℕ → Process R → Process R → Type 0 where
    here : {p : Process R} → Run 0 p p
    next : {n : ℕ} {p q r : Process R} → Run n p q → Step mux sys up cfg q r → Run (suc n) p r
