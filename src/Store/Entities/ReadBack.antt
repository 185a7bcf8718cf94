-- ===== src/Store/Entities/ReadBack.antt =====
-- What a get finds after a creation and after a deletion.
use adaptive_api_routing_gat.Base.{
  ◌≡◌, Bool, Text, same_refl, Map, Result-cases, ok, err, err_not_found, ok-injective, err-ne-ok,
  ◌>>=◌, inl, inr, arith,
}
use adaptive_api_routing_gat.Store.Memory.{MemoryStore}
use adaptive_api_routing_gat.Store.Table.{get, create, remove}
use adaptive_api_routing_gat.Store.Table.Laws.{get-create, get-remove}
use adaptive_api_routing_gat.Model.Services.{Service}
use adaptive_api_routing_gat.Model.Routes.{Route}
use adaptive_api_routing_gat.Model.Apps.{App}
use adaptive_api_routing_gat.Model.ApiKeys.{ApiKey}
use adaptive_api_routing_gat.Model.Rules.{RateLimitRule}
use adaptive_api_routing_gat.Store.Entities
use adaptive_api_routing_gat.Store.Entities.{
  id_of_service, service_clash, id_of_route, route_clash, id_of_app, app_clash, id_of_api_key,
  api_key_clash, id_of_rate_limit_rule, rate_limit_rule_clash,
}

module _ {V : Type 0} (id_of : V → Text) (clash : V → V → Bool) (wrap : Map V → MemoryStore) where
  -- A creation in one table of the store that succeeds has made a table that holds the value.
  created_table :
      (x : V) (m : Map V) {s' : MemoryStore}
      → (create id_of clash x m >>= λ m'. ok (wrap m')) ≡ ok s'
      → (m' : Map V) × (s' ≡ wrap m') × (get (id_of x) m' ≡ ok x)
  created_table x m e = elim (Result-cases (create id_of clash x m)) [
    | inl (m', q) ↦ (
      m',
      ok-injective (ground arith),
      ground (arith, get-create id_of clash x m (id_of x) q, same_refl (id_of x)),
    )
    | inr (x', q) ↦ absurd (err-ne-ok (rw q at e))
  ]

  deleted_table :
      (id : Text) (m : Map V) {s' : MemoryStore}
      → (remove id m >>= λ m'. ok (wrap m')) ≡ ok s'
      → (m' : Map V) × (s' ≡ wrap m') × (get id m' ≡ err err_not_found)
  deleted_table id m e = elim (Result-cases (remove id m)) [
    | inl (m', q) ↦ (
      m',
      ok-injective (ground arith),
      ground (arith, get-remove id_of clash id id m q, same_refl id),
    )
    | inr (x', q) ↦ absurd (err-ne-ok (rw q at e))
  ]

module _ (s : MemoryStore) {s' : MemoryStore} where
  pub get_service-create_service :
      (v : Service) → Entities.create_service v s ≡ ok s' → Entities.get_service v.id s' ≡ ok v
  unfolding Entities.create_service Entities.get_service
  get_service-create_service v e =
      let (m, q, found) =
        created_table id_of_service service_clash (λ m. record s { services = m }) v s.services e in
      rw q found

  pub get_service-delete_service :
      (id : Text)
      → Entities.delete_service id s ≡ ok s'
      → Entities.get_service id s' ≡ err err_not_found
  unfolding Entities.delete_service Entities.get_service
  get_service-delete_service id e =
      let (m, q, missing) =
        deleted_table id_of_service service_clash (λ m. record s { services = m }) id s.services
          e in
      rw q missing

  pub get_route-create_route :
      (v : Route) → Entities.create_route v s ≡ ok s' → Entities.get_route v.id s' ≡ ok v
  unfolding Entities.create_route Entities.get_route
  get_route-create_route v e =
      let (m, q, found) =
        created_table id_of_route route_clash (λ m. record s { routes = m }) v s.routes e in
      rw q found

  pub get_route-delete_route :
      (id : Text)
      → Entities.delete_route id s ≡ ok s'
      → Entities.get_route id s' ≡ err err_not_found
  unfolding Entities.delete_route Entities.get_route
  get_route-delete_route id e =
      let (m, q, missing) =
        deleted_table id_of_route route_clash (λ m. record s { routes = m }) id s.routes e in
      rw q missing

  pub get_app-create_app :
      (v : App) → Entities.create_app v s ≡ ok s' → Entities.get_app v.id s' ≡ ok v
  unfolding Entities.create_app Entities.get_app
  get_app-create_app v e =
      let (m, q, found) =
        created_table id_of_app app_clash (λ m. record s { apps = m }) v s.apps e in
      rw q found

  pub get_app-delete_app :
      (id : Text) → Entities.delete_app id s ≡ ok s' → Entities.get_app id s' ≡ err err_not_found
  unfolding Entities.delete_app Entities.get_app
  get_app-delete_app id e =
      let (m, q, missing) =
        deleted_table id_of_app app_clash (λ m. record s { apps = m }) id s.apps e in
      rw q missing

  pub get_api_key-create_api_key :
      (v : ApiKey) → Entities.create_api_key v s ≡ ok s' → Entities.get_api_key v.id s' ≡ ok v
  unfolding Entities.create_api_key Entities.get_api_key
  get_api_key-create_api_key v e =
      let (m, q, found) =
        created_table id_of_api_key api_key_clash (λ m. record s { api_keys = m }) v s.api_keys e in
      rw q found

  pub get_api_key-delete_api_key :
      (id : Text)
      → Entities.delete_api_key id s ≡ ok s'
      → Entities.get_api_key id s' ≡ err err_not_found
  unfolding Entities.delete_api_key Entities.get_api_key
  get_api_key-delete_api_key id e =
      let (m, q, missing) =
        deleted_table id_of_api_key api_key_clash (λ m. record s { api_keys = m }) id s.api_keys
          e in
      rw q missing

  pub get_rate_limit_rule-create_rate_limit_rule :
      (v : RateLimitRule)
      → Entities.create_rate_limit_rule v s ≡ ok s'
      → Entities.get_rate_limit_rule v.id s' ≡ ok v
  unfolding Entities.create_rate_limit_rule Entities.get_rate_limit_rule
  get_rate_limit_rule-create_rate_limit_rule v e =
      let (m, q, found) =
        created_table id_of_rate_limit_rule rate_limit_rule_clash
          (λ m. record s { rate_limit_rules = m }) v s.rate_limit_rules e in
      rw q found

  pub get_rate_limit_rule-delete_rate_limit_rule :
      (id : Text)
      → Entities.delete_rate_limit_rule id s ≡ ok s'
      → Entities.get_rate_limit_rule id s' ≡ err err_not_found
  unfolding Entities.delete_rate_limit_rule Entities.get_rate_limit_rule
  get_rate_limit_rule-delete_rate_limit_rule id e =
      let (m, q, missing) =
        deleted_table id_of_rate_limit_rule rate_limit_rule_clash
          (λ m. record s { rate_limit_rules = m }) id s.rate_limit_rules e in
      rw q missing
