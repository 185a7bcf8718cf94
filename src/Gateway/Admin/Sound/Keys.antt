-- ===== src/Gateway/Admin/Sound/Keys.antt =====
-- Every operation on apps and API keys keeps the store sound.
use adaptive_api_routing_gat.Base.{
  ◌≡◌, refl, sym, ◌∙◌, Option-cases, inl, inr, Text, lookup, none, some, ok, Result-cases, Map,
  Everywhere, insert, insert-Everywhere, delete-Everywhere, arith,
}
use adaptive_api_routing_gat.Base.Time.{Time}
use adaptive_api_routing_gat.Model.Apps
use adaptive_api_routing_gat.Model.Apps.{App}
use adaptive_api_routing_gat.Model.ApiKeys
use adaptive_api_routing_gat.Model.ApiKeys.{ApiKey, api_key_active, api_key_disabled}
use adaptive_api_routing_gat.Store.Memory.{MemoryStore}
use adaptive_api_routing_gat.Store.Table.{create, update, remove, get}
use adaptive_api_routing_gat.Store.Table.Laws.{
  IsTable, create_ok, update_ok, create-IsTable, update-IsTable, insert-IsTable, remove-IsTable,
}
use adaptive_api_routing_gat.Store.Entities
use adaptive_api_routing_gat.Store.Entities.{id_of_app, id_of_api_key, api_key_clash}
use adaptive_api_routing_gat.Store.Unique.Fields.{api_key_clash_symm}
use adaptive_api_routing_gat.Store.Sound.{insert-IsKeyed, delete-IsKeyed, IsKnown, IsSound}
use adaptive_api_routing_gat.Gateway.Admin.Apps as AppAdmin

app-id : (a : App) → (Apps.validate a).0.id ≡ a.id
unfolding Apps.validate
app-id a = ground arith

key-id : (now : Time) (k : ApiKey) → (ApiKeys.validate now k).0.id ≡ k.id
unfolding ApiKeys.validate
key-id now k = ground arith

pub validated_key-IsKnown :
    (now : Time) (k : ApiKey)
    → (ApiKeys.validate now k).1 ≡ none
    → IsKnown (ApiKeys.validate now k).0
unfolding ApiKeys.validate
validated_key-IsKnown now k e = ground arith

at_own_id :
    (k : ApiKey) (id : Text) (m : Map ApiKey)
    → k.id ≡ id
    → IsTable id_of_api_key api_key_clash (insert k.id k m)
    → IsTable id_of_api_key api_key_clash (insert id k m)
at_own_id k id m own t = rw (← own) t

module _ (s : MemoryStore) (h : IsSound s) where
  pub create_app-IsSound :
      (id : Text) (now : Time) (a : App) → IsSound (AppAdmin.create_app id now a s).0
  unfolding AppAdmin.create_app Entities.create_app create
  create_app-IsSound id now a =
      let created = AppAdmin.stamped id now (Apps.validate a).0 in
      ground (arith, insert-IsKeyed id_of_app id created s.apps)

  pub update_app-IsSound :
      (id : Text) (now : Time) (a : App) → IsSound (AppAdmin.update_app id now a s).0
  unfolding AppAdmin.update_app Entities.update_app Entities.get_app get update Entities.assign_app
  update_app-IsSound id now a = elim (Option-cases (lookup id s.apps)) [
    | inl missing ↦ ground arith
    | inr (exist, found) ↦
        let v' = (Apps.validate (AppAdmin.renewed now a exist)).0 in
        let own : v'.id ≡ id =
          app-id (AppAdmin.renewed now a exist) ∙ h.apps.keyed id exist found in
        let once = insert-IsKeyed id_of_app id v' s.apps own h.apps in
        let twice = insert-IsKeyed id_of_app v'.id v' (insert id v' s.apps) refl once in
        ground arith
  ]

  pub delete_app-IsSound : (id : Text) → IsSound (AppAdmin.delete_app id s).0
  unfolding AppAdmin.delete_app Entities.delete_app remove
  delete_app-IsSound id = ground (arith, delete-IsKeyed id_of_app id s.apps)

  -- A key that is stored for the first time.
  create_key-IsSound :
      (k : ApiKey) (m : Map ApiKey)
      → IsKnown k
      → create id_of_api_key api_key_clash k s.api_keys ≡ ok m
      → IsSound (record s { api_keys = m })
  create_key-IsSound k m known e =
      let written = (create_ok id_of_api_key api_key_clash k s.api_keys e).1 in
      let unique : IsTable id_of_api_key api_key_clash m =
        create-IsTable id_of_api_key api_key_clash api_key_clash_symm k s.api_keys e h.api_keys in
      let all : Everywhere (λ _ k'. IsKnown k') m =
        rw written (insert-Everywhere k.id k s.api_keys known h.known) in
      ground arith

  pub create_api_key-IsSound :
      (id hex app_id secret : Text) (expires created validated : Time)
      → IsSound (AppAdmin.create_api_key id hex app_id secret expires created validated s).0
  unfolding AppAdmin.create_api_key Entities.create_api_key Entities.get_app get
  create_api_key-IsSound id hex app_id secret expires created validated =
      let k = AppAdmin.new_key id hex app_id secret created expires in
      let k' = (ApiKeys.validate validated k).0 in
      elim (Result-cases (create id_of_api_key api_key_clash k' s.api_keys)) [
        | inl (m, e) ↦ ground (arith, validated_key-IsKnown validated k, create_key-IsSound k' m)
        | inr (_, e) ↦ ground arith
      ]

  -- A key whose status alone is changed.
  assign_api_key-IsSound :
      (id : Text) (k : ApiKey) (status : Text)
      → lookup id s.api_keys ≡ some k
      → IsKnown (record k { status = status })
      → IsSound (Entities.assign_api_key id (record k { status = status }) s)
  unfolding Entities.assign_api_key
  assign_api_key-IsSound id k status found known =
      let k' : ApiKey = record k { status = status } in
      let own : k'.id ≡ id = h.api_keys.keyed id k found in
      let written =
        insert-IsTable id_of_api_key api_key_clash api_key_clash_symm k' s.api_keys
          (λ j w at_j other. h.api_keys.apart j id w k at_j found (λ p. other (p ∙ sym own)))
          h.api_keys in
      let unique : IsTable id_of_api_key api_key_clash (insert id k' s.api_keys) =
        at_own_id k' id s.api_keys own written in
      let all : Everywhere (λ _ x. IsKnown x) (insert id k' s.api_keys) =
        insert-Everywhere id k' s.api_keys known h.known in
      ground arith

  pub delete_api_key-IsSound : (id : Text) → IsSound (AppAdmin.delete_api_key id s).0
  unfolding AppAdmin.delete_api_key Entities.delete_api_key remove
  delete_api_key-IsSound id = ground (
    arith,
    remove-IsTable id_of_api_key api_key_clash id s.api_keys,
    delete-Everywhere {P = λ _ k. IsKnown k} id s.api_keys,
  )

module _ (s : MemoryStore) (h : IsSound s) where
  -- The update of a key that is stored with a known status.
  update_key-IsSound :
      (k : ApiKey) (m : Map ApiKey)
      → IsKnown k
      → update id_of_api_key api_key_clash k s.api_keys ≡ ok m
      → IsSound (record s { api_keys = m })
  update_key-IsSound k m known e =
      let written = (update_ok id_of_api_key api_key_clash k s.api_keys e).1 in
      let unique : IsTable id_of_api_key api_key_clash m =
        update-IsTable id_of_api_key api_key_clash api_key_clash_symm k s.api_keys e h.api_keys in
      let all : Everywhere (λ _ k'. IsKnown k') m =
        rw written (insert-Everywhere k.id k s.api_keys known h.known) in
      ground arith

module _ (s : MemoryStore) (h : IsSound s) where
  pub update_api_key_status-IsSound :
      (id status : Text) → IsSound (AppAdmin.update_api_key_status id status s).0
  unfolding AppAdmin.update_api_key_status Entities.update_api_key Entities.get_api_key get
      Entities.assign_api_key
  update_api_key_status-IsSound id status = elim (Option-cases (lookup id s.api_keys)) [
    | inl missing ↦ ground arith
    | inr (k, found) ↦
        let k' : ApiKey = record k { status = status } in
        let s' = Entities.assign_api_key id k' s in
        elim (Result-cases (update id_of_api_key api_key_clash k' s'.api_keys)) [
          | inl (m, e) ↦
              let rest : IsSound s' → IsKnown k' → IsSound (record s' { api_keys = m }) =
                λ sound known. update_key-IsSound s' sound k' m known e in
              ground (arith, assign_api_key-IsSound s h id k status found, rest)
          | inr (_, e) ↦ ground (arith, assign_api_key-IsSound s h id k status found)
        ]
  ]
