-- ===== src/Tests/Keys.antt =====
-- API keys.
use adaptive_api_routing_gat.Base.{◌≡◌, refl, ok, In, here, codes, same, lookup}
use adaptive_api_routing_gat.Model.ApiKeys.{ApiKey, is_expired}
use adaptive_api_routing_gat.Store.Entities.{get_app, list_api_keys, get_api_key_by_key}
use adaptive_api_routing_gat.Gateway.Auth.{authenticate, authenticate_key}
use adaptive_api_routing_gat.Gateway.Auth.Sound.{
  IsGranted, authenticate-IsGranted, IsGranted-authenticate,
}
use adaptive_api_routing_gat.Tests.Tables.{store-IsConsistent}
use adaptive_api_routing_gat.Tests.Samples.{store, key, app}

secret_accepted : authenticate (codes "secret") 50 store ≡ ok app
unfolding authenticate get_api_key_by_key same authenticate_key is_expired get_app lookup
secret_accepted = refl

authenticate-IsGranted_example :
    (k : ApiKey) × In k (list_api_keys store) × (k.key ≡ codes "secret") × IsGranted k 50 store app
authenticate-IsGranted_example = authenticate-IsGranted (codes "secret") 50 store secret_accepted

key-IsGranted : IsGranted key 50 store app
unfolding is_expired get_app lookup same
key-IsGranted = record { active = refl; fresh = refl; owner = refl; app_enabled = refl }

key-In : In key (list_api_keys store)
unfolding list_api_keys
key-In = here

IsGranted-authenticate_example : authenticate key.key 50 store ≡ ok app
IsGranted-authenticate_example =
    IsGranted-authenticate key 50 store app store-IsConsistent.api_keys key-In key-IsGranted
