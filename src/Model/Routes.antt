-- ===== src/Model/Routes.antt =====
-- internal/model/route.go
use adaptive_api_routing_gat.Base.{
  Bool, true, false, not, ◌&&◌, ◌||◌, none, some, Text, codes, same, is_empty, trim_space, map,
  has_prefix, ℕ, if◌then◌else◌,
}
use adaptive_api_routing_gat.Base.Time.{Time}
use adaptive_api_routing_gat.Model.Checked.{Checked, invalid}

pub record Route : Type 0 where
  pub id : Text
  pub path : Text
  pub method : Text
  pub service_id : Text
  pub strip_prefix : Bool
  pub requires_auth : Bool
  pub rate_limit_rule_id : Text
  pub created_at : Time
  pub updated_at : Time

-- `upper` is `unicode.ToUpper`, which `strings.ToUpper` maps over a text.
abbrev pub trimmed : (upper : ℕ → ℕ) → Route → Route
trimmed upper r = record r {
  path = trim_space r.path;
  method = map upper (trim_space r.method);
  service_id = trim_space r.service_id;
}

abbrev pub with_method : Route → Route
with_method r = record r { method = if is_empty r.method then codes "GET" else r.method }

abbrev pub is_method : Text → Bool
is_method m =
    same m (codes "GET")
    || same m (codes "POST")
    || same m (codes "PUT")
    || same m (codes "PATCH")
    || same m (codes "DELETE")

check_method : Route → Checked Route
check_method r =
    if not (is_method r.method)
    then (r, some (invalid "method" "不支持的 HTTP 方法"))
    else if is_empty r.service_id
    then (r, some (invalid "service_id" "上游服务 ID 不能为空"))
    else (r, none)

check_path : Route → Checked Route
check_path r =
    if is_empty r.path || not (has_prefix r.path (codes "/"))
    then (r, some (invalid "path" "路由路径必须以 / 开头"))
    else check_method (with_method r)

unfoldable pub validate : (upper : ℕ → ℕ) → Route → Checked Route
unfolding check_path check_method
validate upper r = check_path (trimmed upper r)

pub record RouteFilter : Type 0 where
  pub service_id : Text
  pub method : Text

unfoldable pub matches : RouteFilter → Route → Bool
matches f r =
    if not (is_empty f.service_id) && not (same r.service_id f.service_id)
    then false
    else if not (is_empty f.method) && not (same r.method f.method)
    then false
    else true
