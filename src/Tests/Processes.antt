-- ===== src/Tests/Processes.antt =====
-- A process that answers one request and is told to end.
use adaptive_api_routing_gat.Base.{◌≢◌, refl, none, Option, Text, codes, []}
use adaptive_api_routing_gat.Base.Int.{ℤ}
use adaptive_api_routing_gat.Base.Float.{Nanos, nanos_float, Nanos-IsFloat}
use adaptive_api_routing_gat.Gateway.Sound.{IsSound}
use adaptive_api_routing_gat.Handler.Server.{serve}
use adaptive_api_routing_gat.Process.{
  Process, starting, announced, listening, start, announce, listen, answer, Run, here, next,
}
use adaptive_api_routing_gat.Process.Sound.{run-start-IsSound}
use adaptive_api_routing_gat.Process.Orderly.{IsOrderly, run-start-IsOrderly}
use adaptive_api_routing_gat.Logger.{infof}
use adaptive_api_routing_gat.Tests.Muxes.{longest_mux}
use adaptive_api_routing_gat.Tests.Requests.{moments}
use adaptive_api_routing_gat.Tests.Servers.{
  config, draws, printed, web_request, upstream, shop_system,
}

-- An environment with no variables.
abbrev environment : Text → Text
environment key = []

abbrev no_number : Text → Option ℤ
no_number t = none

abbrev nothing : ℤ → Text
nothing n = []

abbrev first_state : Process Nanos
first_state = start environment no_number nothing nothing

abbrev listening_state : Process Nanos
listening_state = record first_state {
  server = record first_state.server {
    log = infof (codes "API 网关已启动，监听 :8080") first_state.server.log;
  };
  listener = listening;
}

abbrev answered_state : Process Nanos
answered_state = record listening_state {
  server =
      (serve longest_mux shop_system upstream config web_request draws moments printed
        listening_state.server).0;
}

-- The gateway's goroutine has said that it listens, listens, and has answered a request.
run_to_answer : Run longest_mux shop_system upstream config 3 first_state answered_state
unfolding start
run_to_answer =
    next (next (next here (announce refl refl)) (listen refl refl))
      (answer web_request draws moments printed refl not_starting not_announced)
  where
    not_starting : listening ≢ starting
    not_starting p = cc

    not_announced : listening ≢ announced
    not_announced p = cc

run-start-IsSound_example : IsSound answered_state.server.service
run-start-IsSound_example =
    run-start-IsSound Nanos-IsFloat longest_mux shop_system upstream config environment no_number
      nothing nothing run_to_answer

run-start-IsOrderly_example : IsOrderly answered_state
run-start-IsOrderly_example =
    run-start-IsOrderly longest_mux shop_system upstream config environment no_number nothing
      nothing run_to_answer
