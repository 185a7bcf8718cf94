-- ===== src/Tests/Updates.antt =====
-- Updates of a service that fail.
use adaptive_api_routing_gat.Base.{
  ◌≡◌, ◌≢◌, refl, some, [], err, err_conflict, codes, lookup, same, same_iff, trim_space, arith,
}
use adaptive_api_routing_gat.Model.Services.{Service, validate}
use adaptive_api_routing_gat.Store.Table.Laws.{IsTable}
use adaptive_api_routing_gat.Store.Entities.{id_of_service, service_clash}
use adaptive_api_routing_gat.Gateway.Admin.Services.{update_service}
use adaptive_api_routing_gat.Gateway.Admin.Failures.{update_service-conflict}
use adaptive_api_routing_gat.Tests.Tables.{store-IsConsistent}
use adaptive_api_routing_gat.Tests.Samples.{store, users, orders, service_named}

abbrev nameless : Service
nameless = service_named [] [] (codes "http://users")

abbrev renamed : Service
renamed = service_named [] (codes "orders") (codes "http://users")

users_found : lookup (codes "s1") store.services ≡ some users
unfolding lookup same
users_found = refl

orders_found : lookup (codes "s2") store.services ≡ some orders
unfolding lookup same
orders_found = refl

ids_differ : codes "s2" ≢ codes "s1"
unfolding same
ids_differ p = let q = (same_iff (codes "s2") (codes "s1")).1 p in ground arith

update_service-conflict_example :
    ((update_service (codes "s1") 9 renamed store).1 ≡ err err_conflict)
    × ¬ IsTable id_of_service service_clash (update_service (codes "s1") 9 renamed store).0.services
unfolding validate trim_space same
update_service-conflict_example =
    update_service-conflict (codes "s1") 9 renamed store users_found store-IsConsistent.services
      orders_found ids_differ refl refl
