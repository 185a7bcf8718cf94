-- ===== src/Gateway/Admin/Failures.antt =====
-- What a failed update leaves behind. The stored object was written before it was checked.
use mathlib.Core.Path.{subst}
use adaptive_api_routing_gat.Base.{
  ◌≡◌, ◌≢◌, sym, ap, ◌∙◌, true, none, some, Error, Text, same_iff, same_refl, lookup, lookup-insert,
  err, err_conflict, values, any_of_In, In-lookup, arith,
}
use adaptive_api_routing_gat.Base.Time.{Time}
use adaptive_api_routing_gat.Model.Services.{Service, validate}
use adaptive_api_routing_gat.Store.Memory.{MemoryStore}
use adaptive_api_routing_gat.Store.Table
use adaptive_api_routing_gat.Store.Table.Laws.{IsTable}
use adaptive_api_routing_gat.Store.Entities.{id_of_service, service_clash, assign_service}
use adaptive_api_routing_gat.Store.Entities
use adaptive_api_routing_gat.Gateway.Admin.Services.{update_service, renewed}

validate-id : (v : Service) → (validate v).0.id ≡ v.id
unfolding validate
validate-id v = ground arith

module _ (id : Text) (now : Time) (v : Service) (s : MemoryStore) {exist : Service}
    (found : lookup id s.services ≡ some exist) where
  abbrev checked : Service
  checked = (validate (renewed now v exist)).0

  -- An update that fails its validation answers the error of the check, and the object that
  -- failed has replaced the stored one.
  update_service-invalid :
      {e : Error}
      → (validate (renewed now v exist)).1 ≡ some e
      → update_service id now v s ≡ (assign_service id checked s, err e)
  unfolding update_service Entities.get_service
  update_service-invalid bad = ground arith

  module _ (t : IsTable id_of_service service_clash s.services) where
    checked_id : checked.id ≡ id
    checked_id = validate-id (renewed now v exist) ∙ t.keyed id exist found

    module _ {j : Text} {other : Service} (found' : lookup j s.services ≡ some other)
        (apart : j ≢ id) (same_name : other.name ≡ checked.name) where
      abbrev written : MemoryStore
      written = assign_service id checked s

      written_other : lookup j written.services ≡ some other
      unfolding assign_service
      written_other = ground (arith, lookup-insert id j checked s.services, same_iff id j)

      written_own : lookup id written.services ≡ some checked
      unfolding assign_service
      written_own = ground (arith, lookup-insert id id checked s.services, same_refl id)

      elsewhere : Table.clashes_elsewhere id_of_service service_clash checked other ≡ true
      elsewhere =
          let own = checked_id in
          let other_id = t.keyed j other found' in
          ground (arith, same_iff other.id checked.id, same_iff other.name checked.name)

      refused : Entities.update_service checked written ≡ err err_conflict
      unfolding Entities.update_service
      refused =
          let present : lookup checked.id written.services ≡ some checked =
            rw checked_id written_own in
          let clash =
            any_of_In (Table.clashes_elsewhere id_of_service service_clash checked)
              (values written.services) (In-lookup j written.services written_other) elsewhere in
          ground arith

      -- In a consistent table, an update with valid fields that renames a service to the name of
      -- another is answered with a conflict, but the rename has been stored: the table is not
      -- consistent any more, since two services have one name.
      pub update_service-conflict :
          (validate (renewed now v exist)).1 ≡ none
          → ((update_service id now v s).1 ≡ err err_conflict)
            × ¬ IsTable id_of_service service_clash (update_service id now v s).0.services
      unfolding update_service Entities.get_service
      update_service-conflict valid =
          let e : update_service id now v s ≡ (written, err err_conflict) =
            let r = refused in ground arith in
          (
            ap (λ o. o.1) e,
            λ broken.
                let b = subst (λ o. IsTable id_of_service service_clash o.0.services) e broken in
                let differ =
                  b.apart id j checked other written_own written_other (λ p. apart (sym p)) in
                ground (arith, same_iff checked.name other.name),
          )
