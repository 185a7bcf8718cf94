-- ===== src/Gateway/Admin/Rules.antt =====
-- internal/service/rate_limit_rule_service.go, but for `AllowRequest`.
use adaptive_api_routing_gat.Base.{Bool, Text, ltb, Result, ok, err}
use adaptive_api_routing_gat.Base.Int.{ℤ}
use adaptive_api_routing_gat.Base.Time.{Time}
use adaptive_api_routing_gat.Base.Sort.{sort_slice}
use adaptive_api_routing_gat.Model.Rules.{RateLimitRule, validate}
use adaptive_api_routing_gat.Store.Memory.{MemoryStore}
use adaptive_api_routing_gat.Store.Entities
use adaptive_api_routing_gat.Gateway.{Gateway, reset_buckets}
use adaptive_api_routing_gat.Gateway.Paging.{Page, paginate}
use adaptive_api_routing_gat.Gateway.Admin.{Action, ◌>>=◌, ◌>>◌, pure, read, write, modify, check}

abbrev pub stamped : Text → Time → RateLimitRule → RateLimitRule
stamped id now r = record r { id = id; created_at = now; updated_at = now }

unfoldable pub create_rate_limit_rule : Text → Time → RateLimitRule → Action RateLimitRule
create_rate_limit_rule id now r = do
  let checked = validate r
  check checked.1
  let created = stamped id now checked.0
  write (Entities.create_rate_limit_rule created)
  pure created

unfoldable pub get_rate_limit_rule : Text → Action RateLimitRule
get_rate_limit_rule id = read (Entities.get_rate_limit_rule id)

abbrev newer : RateLimitRule → RateLimitRule → Bool
newer a b = ltb b.created_at a.created_at

unfoldable pub list_rate_limit_rules : ℤ → ℤ → MemoryStore → Page RateLimitRule
list_rate_limit_rules p size s =
    paginate (sort_slice newer (Entities.list_rate_limit_rules s)) p size

abbrev pub renewed : Time → RateLimitRule → RateLimitRule → RateLimitRule
renewed now r exist = record exist {
  name = r.name;
  limit = r.limit;
  window = r.window;
  updated_at = now;
}

-- The part of `UpdateRateLimitRule` on the store.
unfoldable pub update_stored_rule : Text → Time → RateLimitRule → Action RateLimitRule
update_stored_rule id now r = do
  exist ← read (Entities.get_rate_limit_rule id)
  let checked = validate (renewed now r exist)
  modify (Entities.assign_rate_limit_rule id checked.0)
  check checked.1
  write (Entities.update_rate_limit_rule checked.0)
  pure checked.0

-- `UpdateRateLimitRule`: only a successful update empties the buckets.
unfoldable pub update_rate_limit_rule :
    {R : Type 0} → Text → Time → RateLimitRule → Gateway R → Gateway R × Result RateLimitRule
unfolding update_stored_rule
update_rate_limit_rule id now r g =
    let (s, result) = update_stored_rule id now r g.store in
    let g' : Gateway _ = record g { store = s } in
    elim result [ ok rule ↦ (reset_buckets g', ok rule) | err e ↦ (g', err e) ]

unfoldable pub delete_rate_limit_rule : Text → Action (Unit {0})
delete_rate_limit_rule id = write (Entities.delete_rate_limit_rule id)
