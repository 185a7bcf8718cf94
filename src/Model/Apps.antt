-- ===== src/Model/Apps.antt =====
-- internal/model/app.go
use adaptive_api_routing_gat.Base.{
  Bool, true, false, not, ◌&&◌, none, some, Text, codes, same, is_empty, trim_space, if◌then◌else◌,
}
use adaptive_api_routing_gat.Base.Time.{Time}
use adaptive_api_routing_gat.Model.Checked.{Checked, invalid}

pub record App : Type 0 where
  pub id : Text
  pub name : Text
  pub status : Text
  pub created_at : Time
  pub updated_at : Time

abbrev pub app_active : Text
app_active = codes "active"

abbrev pub app_disabled : Text
app_disabled = codes "disabled"

abbrev with_status : App → App
with_status a = record a { status = if is_empty a.status then app_active else a.status }

check_status : App → Checked App
check_status a =
    if not (same a.status app_active) && not (same a.status app_disabled)
    then (a, some (invalid "status" "应用状态不合法"))
    else (a, none)

check_name : App → Checked App
check_name a =
    if is_empty a.name then (a, some (invalid "name" "应用名称不能为空")) else check_status (with_status a)

unfoldable pub validate : App → Checked App
unfolding check_name check_status
validate a = check_name (record a { name = trim_space a.name })

pub record AppFilter : Type 0 where
  pub status : Text

unfoldable pub matches : AppFilter → App → Bool
matches f a = if not (is_empty f.status) && not (same a.status f.status) then false else true
