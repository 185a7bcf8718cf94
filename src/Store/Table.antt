-- ===== src/Store/Table.antt =====
-- What the seven maps of `MemoryStore` have in common: a table of entities under their IDs, in
-- which no two entities clash (have the same name, key, or path and method).
pub mod Laws
pub mod Refinement
use adaptive_api_routing_gat.Base.{
  Bool, not, ◌&&◌, Option, none, some, Text, same, Map, lookup, insert, delete, values, any, Result,
  ok, err, err_not_found, err_conflict, if◌then◌else◌, List, [], ◌∷◌,
}

module _ {V : Type 0} where
  -- `v, ok := m[id]; if !ok { return nil, ErrNotFound }; return v, nil`
  unfoldable pub get : Text → Map V → Result V
  get id m = elim (lookup id m) [ none ↦ err err_not_found | some v ↦ ok v ]

  find_in : (V → Bool) → List V → Result V
  find_in test [] = err err_not_found
  find_in test (v ∷ vs) = let rest = find_in test vs in if test v then ok v else rest

  -- `for _, v := range m { if test(v) { return v, nil } }; return nil, ErrNotFound`
  unfoldable pub find : (V → Bool) → Map V → Result V
  unfolding find_in
  find test m = find_in test (values m)

  unfoldable pub remove : Text → Map V → Result (Map V)
  remove id m = elim (lookup id m) [ none ↦ err err_not_found | some _ ↦ ok (delete id m) ]

  module _ (id_of : V → Text) (clash : V → V → Bool) where
    unfoldable pub create : V → Map V → Result (Map V)
    create v m =
        if any (λ exist. clash exist v) (values m)
        then err err_conflict
        else ok (insert (id_of v) v m)

    -- `exist.ID != v.ID && exist.Name == v.Name`
    abbrev pub clashes_elsewhere : V → V → Bool
    clashes_elsewhere v exist = not (same (id_of exist) (id_of v)) && clash exist v

    unfoldable pub update : V → Map V → Result (Map V)
    update v m = elim (lookup (id_of v) m) [
      | none ↦ err err_not_found
      | some _ ↦
          if any (clashes_elsewhere v) (values m)
          then err err_conflict
          else ok (insert (id_of v) v m)
    ]
