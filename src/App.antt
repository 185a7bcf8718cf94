-- ===== src/App.antt =====
-- internal/app/app.go: how the parts are put together. `print_int` is what `fmt` makes of an `int`.
use adaptive_api_routing_gat.Base.{◌++◌, Text, codes}
use adaptive_api_routing_gat.Base.Int.{ℤ, pos, ◌*ℤ◌, wrap}
use adaptive_api_routing_gat.Base.Time.{second}
use adaptive_api_routing_gat.Config.{Config, config_text}
use adaptive_api_routing_gat.Logger.{Logger, infof}
use adaptive_api_routing_gat.Store.Memory.{new_memory_store}
use adaptive_api_routing_gat.Gateway.{new_gateway}
use adaptive_api_routing_gat.Handler.Server.{Server}

-- The server with an empty store; its handler is `Server.serve` under the configuration.
unfoldable pub new_app : {R : Type 0} → (print_int : ℤ → Text) → Config → Logger → Server R
unfolding config_text infof new_gateway
new_app print_int cfg log = record {
  service = new_gateway new_memory_store;
  log = infof (codes "应用装配完成，配置：" ++ config_text print_int cfg) log;
}

-- The time between two ticks of the health checker.
unfoldable pub health_check_period : Config → ℤ
health_check_period cfg = wrap (cfg.health_check_interval *ℤ pos second)
