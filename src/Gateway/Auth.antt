-- ===== src/Gateway/Auth.antt =====
-- `Authenticate` of internal/service/app_service.go.
pub mod Sound
use adaptive_api_routing_gat.Base.{not, Text, codes, same, Result, ok, refuse_if, ◌>>=◌, ◌>>◌}
use adaptive_api_routing_gat.Base.Time.{Time}
use adaptive_api_routing_gat.Model.Checked.{invalid}
use adaptive_api_routing_gat.Model.Apps.{App, app_active}
use adaptive_api_routing_gat.Model.ApiKeys.{ApiKey, api_key_active, is_expired}
use adaptive_api_routing_gat.Store.Memory.{MemoryStore}
use adaptive_api_routing_gat.Store.Entities.{get_app, get_api_key_by_key}

-- What follows once the key is found, at the time `now`.
unfoldable pub authenticate_key : ApiKey → Time → MemoryStore → Result App
authenticate_key k now s = do
  refuse_if (not (same k.status api_key_active)) (invalid "key" "密钥已禁用")
  refuse_if (is_expired now k) (invalid "key" "密钥已过期")
  app ← get_app k.app_id s
  refuse_if (not (same app.status app_active)) (invalid "app" "应用已禁用")
  ok app

unfoldable pub authenticate : Text → Time → MemoryStore → Result App
authenticate key now s = do k ← get_api_key_by_key key s; authenticate_key k now s
