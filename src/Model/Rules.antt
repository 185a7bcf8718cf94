-- ===== src/Model/Rules.antt =====
-- internal/model/rate_limit_rule.go
use adaptive_api_routing_gat.Base.{none, some, Text, is_empty, trim_space, if◌then◌else◌}
use adaptive_api_routing_gat.Base.Int.{ℤ, pos, leb_ℤ, ltb_ℤ}
use adaptive_api_routing_gat.Base.Time.{Time}
use adaptive_api_routing_gat.Base.Float.{Float}
use adaptive_api_routing_gat.Model.Checked.{Checked, invalid}

pub record RateLimitRule : Type 0 where
  pub id : Text
  pub name : Text
  pub limit : ℤ
  pub window : ℤ
  pub created_at : Time
  pub updated_at : Time

abbrev with_window : RateLimitRule → RateLimitRule
with_window r = record r { window = if leb_ℤ r.window (pos 0) then pos 60 else r.window }

check_window : RateLimitRule → Checked RateLimitRule
check_window r =
    if ltb_ℤ (pos 86400) r.window
    then (r, some (invalid "window" "时间窗口不能超过 86400 秒"))
    else (r, none)

check_limit : RateLimitRule → Checked RateLimitRule
check_limit r =
    if is_empty r.name
    then (r, some (invalid "name" "规则名称不能为空"))
    else if leb_ℤ r.limit (pos 0)
    then (r, some (invalid "limit" "限额必须大于 0"))
    else if ltb_ℤ (pos 1_000_000) r.limit
    then (r, some (invalid "limit" "限额不能超过 1000000"))
    else check_window (with_window r)

unfoldable pub validate : RateLimitRule → Checked RateLimitRule
unfolding check_limit check_window
validate r = check_limit (record r { name = trim_space r.name })

module _ {R : Type 0} ⦃f : Float R⦄ where
  unfoldable pub rate_per_second : RateLimitRule → R
  rate_per_second r =
      if leb_ℤ r.window (pos 0)
      then f.of_int r.limit
      else f.div (f.of_int r.limit) (f.of_int r.window)
