-- ===== src/Model/ApiKeys.antt =====
-- internal/model/api_key.go
use adaptive_api_routing_gat.Base.{
  Bool, not, ◌&&◌, none, some, Text, codes, same, is_empty, trim_space, ltb, if◌then◌else◌,
}
use adaptive_api_routing_gat.Base.Time.{Time, is_zero}
use adaptive_api_routing_gat.Model.Checked.{Checked, invalid}

pub record ApiKey : Type 0 where
  pub id : Text
  pub app_id : Text
  pub key : Text
  pub secret : Text
  pub status : Text
  pub created_at : Time
  pub expires_at : Time

abbrev pub api_key_active : Text
api_key_active = codes "active"

abbrev pub api_key_disabled : Text
api_key_disabled = codes "disabled"

-- `IsExpired`, at the time `now`; the zero time means that a key does not expire.
unfoldable pub is_expired : Time → ApiKey → Bool
is_expired now k = not (is_zero k.expires_at) && ltb k.expires_at now

abbrev pub trimmed : ApiKey → ApiKey
trimmed k = record k { app_id = trim_space k.app_id; key = trim_space k.key }

abbrev pub with_status : ApiKey → ApiKey
with_status k = record k { status = if is_empty k.status then api_key_active else k.status }

check_status : Time → ApiKey → Checked ApiKey
check_status now k =
    if not (same k.status api_key_active) && not (same k.status api_key_disabled)
    then (k, some (invalid "status" "密钥状态不合法"))
    else if not (is_zero k.expires_at) && ltb k.expires_at now
    then (k, some (invalid "expires_at" "过期时间不能早于当前时间"))
    else (k, none)

check_names : Time → ApiKey → Checked ApiKey
check_names now k =
    if is_empty k.app_id
    then (k, some (invalid "app_id" "应用 ID 不能为空"))
    else if is_empty k.key
    then (k, some (invalid "key" "密钥不能为空"))
    else check_status now (with_status k)

unfoldable pub validate : Time → ApiKey → Checked ApiKey
unfolding check_names check_status
validate now k = check_names now (trimmed k)
