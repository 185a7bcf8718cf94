-- ===== src/Gateway/Auth/Sound.antt =====
-- Who is authenticated: the owner of a stored, active, unexpired key, and no one else.
use adaptive_api_routing_gat.Base.{
  ◌≡◌, refl, false, In, Text, same, same_iff, ok, Result-cases, err-ne-ok, inl, inr, arith,
}
use adaptive_api_routing_gat.Base.Time.{Time}
use adaptive_api_routing_gat.Model.Apps.{App, app_active}
use adaptive_api_routing_gat.Model.ApiKeys.{ApiKey, api_key_active, is_expired}
use adaptive_api_routing_gat.Store.Table.{find}
use adaptive_api_routing_gat.Store.Table.Laws.{find_sound, find_unique, IsTable, clash_unique}
use adaptive_api_routing_gat.Store.Memory.{MemoryStore}
use adaptive_api_routing_gat.Store.Entities.{
  get_app, get_api_key_by_key, id_of_api_key, api_key_clash, list_api_keys,
}
use adaptive_api_routing_gat.Gateway.Auth.{authenticate, authenticate_key}

-- An active app that owns an active key which has not expired.
pub record IsGranted (k : ApiKey) (now : Time) (s : MemoryStore) (app : App) : Type 0 where
  pub active : k.status ≡ api_key_active
  pub fresh : is_expired now k ≡ false
  pub owner : get_app k.app_id s ≡ ok app
  pub app_enabled : app.status ≡ app_active

authenticate_key-IsGranted :
    (k : ApiKey) (now : Time) (s : MemoryStore) (app : App)
    → authenticate_key k now s ≡ ok app
    → IsGranted k now s app
unfolding authenticate_key
authenticate_key-IsGranted k now s app e =
    ground (arith, same_iff k.status api_key_active, same_iff app.status app_active)

IsGranted-authenticate_key :
    (k : ApiKey) (now : Time) (s : MemoryStore) (app : App)
    → IsGranted k now s app
    → authenticate_key k now s ≡ ok app
unfolding authenticate_key
IsGranted-authenticate_key k now s app g =
    ground (arith, same_iff k.status api_key_active, same_iff app.status app_active)

-- A request is authenticated as an app only with the text of a stored key that is active and has
-- not expired, and the app is the stored, active owner of that key.
pub authenticate-IsGranted :
    (key : Text) (now : Time) (s : MemoryStore) {app : App}
    → authenticate key now s ≡ ok app
    → (k : ApiKey) × In k (list_api_keys s) × (k.key ≡ key) × IsGranted k now s app
unfolding authenticate get_api_key_by_key list_api_keys
authenticate-IsGranted key now s {app} e =
    elim (Result-cases (find (λ v. same v.key key) s.api_keys)) [
      | inl (k, found) ↦
          let (listed, fits) = find_sound (λ v. same v.key key) s.api_keys found in
          (
            k,
            listed,
            (same_iff k.key key).0 fits,
            authenticate_key-IsGranted k now s app (rw found at e),
          )
      | inr (x, missed) ↦ absurd (err-ne-ok (rw missed at e))
    ]

-- Where no two stored keys have the same text, the text of each stored key that is active, has not
-- expired and belongs to a stored, active app authenticates this app, in whatever order the map is
-- visited.
pub IsGranted-authenticate :
    (k : ApiKey) (now : Time) (s : MemoryStore) (app : App)
    → IsTable id_of_api_key api_key_clash s.api_keys
    → In k (list_api_keys s)
    → IsGranted k now s app
    → authenticate k.key now s ≡ ok app
unfolding authenticate get_api_key_by_key list_api_keys
IsGranted-authenticate k now s app t listed g =
    rw
      (find_unique (λ v. same v.key k.key) s.api_keys listed ((same_iff k.key k.key).1 refl)
        (λ v i h. clash_unique id_of_api_key api_key_clash s.api_keys t i listed h))
      (IsGranted-authenticate_key k now s app g)
