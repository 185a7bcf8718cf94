-- ===== src/Model/Valid.antt =====
-- What `Validate` promises of an object that it accepts.
use adaptive_api_routing_gat.Base.{
  ◌≡◌, true, false, none, ◌||◌, codes, same, is_empty, trim_space, has_prefix, ℕ, arith,
}
use adaptive_api_routing_gat.Base.Int.{pos, ◌≤ℤ◌, ◌<ℤ◌}
use adaptive_api_routing_gat.Base.Trimming.{trim_space-trim_space}
use adaptive_api_routing_gat.Model.Services
use adaptive_api_routing_gat.Model.Services.{Service, service_active, service_inactive}
use adaptive_api_routing_gat.Model.Routes
use adaptive_api_routing_gat.Model.Routes.{Route, is_method}
use adaptive_api_routing_gat.Model.Apps
use adaptive_api_routing_gat.Model.Apps.{App, app_active, app_disabled}
use adaptive_api_routing_gat.Model.Rules
use adaptive_api_routing_gat.Model.Rules.{RateLimitRule}

pub record IsService (v : Service) : Type 0 where
  pub named : is_empty v.name ≡ false
  pub addressed : is_empty v.base_url ≡ false
  pub trimmed : (trim_space v.name ≡ v.name) × (trim_space v.base_url ≡ v.base_url)
  pub timeout : (pos 0 <ℤ v.timeout) × (v.timeout ≤ℤ pos 300)
  pub retries : (pos 0 ≤ℤ v.retries) × (v.retries ≤ℤ pos 10)
  pub known : (same v.status service_active || same v.status service_inactive) ≡ true

pub validate-IsService :
    (v : Service) → (Services.validate v).1 ≡ none → IsService (Services.validate v).0
unfolding Services.validate
validate-IsService v e =
    ground (arith, trim_space-trim_space v.name, trim_space-trim_space v.base_url)

pub record IsRoute (r : Route) : Type 0 where
  pub path : has_prefix r.path (codes "/") ≡ true
  pub trimmed : (trim_space r.path ≡ r.path) × (trim_space r.service_id ≡ r.service_id)
  pub method : is_method r.method ≡ true
  pub service : is_empty r.service_id ≡ false

pub validate-IsRoute :
    (upper : ℕ → ℕ) (r : Route)
    → (Routes.validate upper r).1 ≡ none
    → IsRoute (Routes.validate upper r).0
unfolding Routes.validate
validate-IsRoute upper r e =
    ground (arith, trim_space-trim_space r.path, trim_space-trim_space r.service_id)

pub record IsApp (a : App) : Type 0 where
  pub named : is_empty a.name ≡ false
  pub trimmed : trim_space a.name ≡ a.name
  pub known : (same a.status app_active || same a.status app_disabled) ≡ true

pub validate-IsApp : (a : App) → (Apps.validate a).1 ≡ none → IsApp (Apps.validate a).0
unfolding Apps.validate
validate-IsApp a e = ground (arith, trim_space-trim_space a.name)

pub record IsRule (r : RateLimitRule) : Type 0 where
  pub named : is_empty r.name ≡ false
  pub trimmed : trim_space r.name ≡ r.name
  pub limit : (pos 0 <ℤ r.limit) × (r.limit ≤ℤ pos 1_000_000)
  pub window : (pos 0 <ℤ r.window) × (r.window ≤ℤ pos 86400)

pub validate-IsRule :
    (r : RateLimitRule) → (Rules.validate r).1 ≡ none → IsRule (Rules.validate r).0
unfolding Rules.validate
validate-IsRule r e = ground (arith, trim_space-trim_space r.name)
