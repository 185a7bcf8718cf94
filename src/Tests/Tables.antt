-- ===== src/Tests/Tables.antt =====
-- The store and its tables.
use mathlib.Core.Path.{subst}
use adaptive_api_routing_gat.Base.{
  ◌≡◌, refl, true, same_iff, arith, List, [], ◌∷◌, codes, same, insert, delete,
}
use adaptive_api_routing_gat.Model.Services.{Service}
use adaptive_api_routing_gat.Store.Table.{create}
use adaptive_api_routing_gat.Store.Table.Refinement.{
  Operation, to_create, to_remove, view, run_operations, Specifies, run_operations-Specifies,
}
use adaptive_api_routing_gat.Store.Memory.{new_memory_store}
use adaptive_api_routing_gat.Store.Entities.{
  id_of_service, service_clash, create_service, create_route, create_app, create_api_key,
  create_rate_limit_rule,
}
use adaptive_api_routing_gat.Store.Unique.{
  Write, new_service, new_route, new_app, new_api_key, new_rate_limit_rule, write, run,
  IsConsistent,
}
use adaptive_api_routing_gat.Store.Unique.Writes.{run-new_memory_store-IsConsistent}
use adaptive_api_routing_gat.Tests.Samples.{
  store, users, orders, api_route, users_route, app, key, rule, service_named,
}

-- The second `users` is refused.
abbrev writes : List Write
writes =
    new_service orders
    ∷ new_service users
    ∷ new_service (service_named (codes "s3") (codes "users") (codes "http://third"))
    ∷ new_route users_route
    ∷ new_route api_route
    ∷ new_app app
    ∷ new_api_key key
    ∷ new_rate_limit_rule rule
    ∷ []

written : run writes new_memory_store ≡ store
unfolding run write create_service create_route create_app create_api_key create_rate_limit_rule
    create insert delete same
written = refl

run-new_memory_store-IsConsistent_example : IsConsistent (run writes new_memory_store)
run-new_memory_store-IsConsistent_example = run-new_memory_store-IsConsistent writes

pub store-IsConsistent : IsConsistent store
store-IsConsistent = subst IsConsistent written (run-new_memory_store-IsConsistent writes)

service_clash-symmetric : (v w : Service) → service_clash v w ≡ true → service_clash w v ≡ true
service_clash-symmetric v w h = ground (arith, same_iff v.name w.name, same_iff w.name v.name)

-- The second creation is refused until the first service is deleted.
abbrev operations : List (Operation Service)
operations =
    to_create users
    ∷ to_create (service_named (codes "s3") (codes "users") (codes "http://third"))
    ∷ to_remove (codes "s1")
    ∷ to_create (service_named (codes "s3") (codes "users") (codes "http://third"))
    ∷ []

run_operations-Specifies_example :
    Specifies id_of_service service_clash
      (view [])
      operations
      (view (run_operations id_of_service service_clash operations []).0)
      (run_operations id_of_service service_clash operations []).1
run_operations-Specifies_example =
    run_operations-Specifies id_of_service service_clash service_clash-symmetric operations
