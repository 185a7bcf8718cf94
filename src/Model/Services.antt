-- ===== src/Model/Services.antt =====
-- internal/model/service.go
use adaptive_api_routing_gat.Base.{
  Bool, true, false, not, ◌&&◌, ◌||◌, none, some, Text, codes, same, is_empty, trim_space, map,
  has_prefix, [], ◌∷◌, ℕ, if◌then◌else◌,
}
use adaptive_api_routing_gat.Base.Int.{ℤ, pos, leb_ℤ, ltb_ℤ}
use adaptive_api_routing_gat.Base.Time.{Time}
use adaptive_api_routing_gat.Model.Checked.{Checked, invalid}

pub record Service : Type 0 where
  pub id : Text
  pub name : Text
  pub base_url : Text
  pub timeout : ℤ
  pub retries : ℤ
  pub status : Text
  pub created_at : Time
  pub updated_at : Time

abbrev pub service_active : Text
service_active = codes "active"

abbrev pub service_inactive : Text
service_inactive = codes "inactive"

abbrev trimmed : Service → Service
trimmed s = record s { name = trim_space s.name; base_url = trim_space s.base_url }

abbrev with_timeout : Service → Service
with_timeout s = record s { timeout = if leb_ℤ s.timeout (pos 0) then pos 5 else s.timeout }

abbrev with_status : Service → Service
with_status s = record s { status = if is_empty s.status then service_active else s.status }

check_status : Service → Checked Service
check_status s =
    if not (same s.status service_active) && not (same s.status service_inactive)
    then (s, some (invalid "status" "服务状态不合法"))
    else (s, none)

check_numbers : Service → Checked Service
check_numbers s =
    if ltb_ℤ (pos 300) s.timeout
    then (s, some (invalid "timeout" "超时时间不能超过 300 秒"))
    else if ltb_ℤ s.retries (pos 0) || ltb_ℤ (pos 10) s.retries
    then (s, some (invalid "retries" "重试次数必须在 0-10 之间"))
    else check_status (with_status s)

check_names : Service → Checked Service
check_names s =
    if is_empty s.name
    then (s, some (invalid "name" "服务名称不能为空"))
    else if is_empty s.base_url
    then (s, some (invalid "base_url" "上游地址不能为空"))
    else check_numbers (with_timeout s)

unfoldable pub validate : Service → Checked Service
unfolding check_names check_numbers check_status
validate s = check_names (trimmed s)

pub record ServiceFilter : Type 0 where
  pub status : Text
  pub keyword : Text

-- `strings.Contains(s, part)`
unfoldable pub contains : Text → Text → Bool
contains [] part = has_prefix [] part
contains (c ∷ s) part = has_prefix (c ∷ s) part || contains s part

-- `lower` is `unicode.ToLower`, which `strings.ToLower` maps over a text.
unfoldable pub matches : (lower : ℕ → ℕ) → ServiceFilter → Service → Bool
unfolding contains
matches lower f s =
    let k = map lower (trim_space f.keyword) in
    if not (is_empty f.status) && not (same s.status f.status)
    then false
    else if not (is_empty k)
        && not (contains (map lower s.name) k)
        && not (contains (map lower s.base_url) k)
    then false
    else true
