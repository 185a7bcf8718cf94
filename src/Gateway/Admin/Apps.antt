-- ===== src/Gateway/Admin/Apps.antt =====
-- internal/service/app_service.go, but for `Authenticate`. The fresh hexadecimal texts and the
-- times that a method reads are arguments.
use adaptive_api_routing_gat.Base.{
  ◌++◌, Bool, not, ◌&&◌, ◌||◌, Text, codes, same, is_empty, ltb, select, if◌then◌else◌,
}
use adaptive_api_routing_gat.Base.Int.{ℤ}
use adaptive_api_routing_gat.Base.Time.{Time}
use adaptive_api_routing_gat.Base.Sort.{sort_slice}
use adaptive_api_routing_gat.Model.Checked.{invalid}
use adaptive_api_routing_gat.Model.Apps
use adaptive_api_routing_gat.Model.Apps.{App, AppFilter}
use adaptive_api_routing_gat.Model.ApiKeys
use adaptive_api_routing_gat.Model.ApiKeys.{ApiKey, api_key_active, api_key_disabled}
use adaptive_api_routing_gat.Store.Memory.{MemoryStore}
use adaptive_api_routing_gat.Store.Entities
use adaptive_api_routing_gat.Gateway.Paging.{Page, paginate}
use adaptive_api_routing_gat.Gateway.Admin.{
  Action, ◌>>=◌, ◌>>◌, pure, read, write, modify, check, refuse,
}

abbrev pub stamped : Text → Time → App → App
stamped id now a = record a { id = id; created_at = now; updated_at = now }

unfoldable pub create_app : Text → Time → App → Action App
create_app id now a = do
  let checked = Apps.validate a
  check checked.1
  let created = stamped id now checked.0
  write (Entities.create_app created)
  pure created

unfoldable pub get_app : Text → Action App
get_app id = read (Entities.get_app id)

abbrev newer_app : App → App → Bool
newer_app a b = ltb b.created_at a.created_at

unfoldable pub list_apps : AppFilter → ℤ → ℤ → MemoryStore → Page App
list_apps filter p size s =
    paginate (sort_slice newer_app (select (Apps.matches filter) (Entities.list_apps s))) p size

abbrev pub renewed : Time → App → App → App
renewed now a exist = record exist {
  name = a.name;
  status = if is_empty a.status then exist.status else a.status;
  updated_at = now;
}

unfoldable pub update_app : Text → Time → App → Action App
update_app id now a = do
  exist ← read (Entities.get_app id)
  let checked = Apps.validate (renewed now a exist)
  modify (Entities.assign_app id checked.0)
  check checked.1
  write (Entities.update_app checked.0)
  pure checked.0

unfoldable pub delete_app : Text → Action (Unit {0})
delete_app id = write (Entities.delete_app id)

abbrev pub new_key : (id hex app_id secret : Text) → (created expires : Time) → ApiKey
new_key id hex app_id secret created expires = record {
  id = id;
  app_id = app_id;
  key = codes "ak_" ++ hex;
  secret = secret;
  status = api_key_active;
  created_at = created;
  expires_at = expires;
}

-- `created` and `validated` are the two readings of the clock.
unfoldable pub create_api_key :
    (id hex app_id secret : Text) → (expires created validated : Time) → Action ApiKey
create_api_key id hex app_id secret expires created validated = do
  app ← read (Entities.get_app app_id)
  let checked = ApiKeys.validate validated (new_key id hex app_id secret created expires)
  check checked.1
  write (Entities.create_api_key checked.0)
  pure checked.0

unfoldable pub get_api_key : Text → Action ApiKey
get_api_key id = read (Entities.get_api_key id)

abbrev newer_key : ApiKey → ApiKey → Bool
newer_key a b = ltb b.created_at a.created_at

unfoldable pub list_api_keys : Text → ℤ → ℤ → MemoryStore → Page ApiKey
list_api_keys app_id p size s =
    paginate
      (sort_slice newer_key
        (select (λ k. is_empty app_id || same k.app_id app_id) (Entities.list_api_keys s)))
      p size

unfoldable pub update_api_key_status : (id status : Text) → Action ApiKey
update_api_key_status id status = do
  refuse (not (same status api_key_active) && not (same status api_key_disabled))
      (invalid "status" "密钥状态不合法")
  k ← read (Entities.get_api_key id)
  let changed : ApiKey = record k { status = status }
  modify (Entities.assign_api_key id changed)
  write (Entities.update_api_key changed)
  pure changed

unfoldable pub delete_api_key : Text → Action (Unit {0})
delete_api_key id = write (Entities.delete_api_key id)
