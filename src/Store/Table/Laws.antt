-- ===== src/Store/Table/Laws.antt =====
-- The laws of a table: what its operations answer, what they leave alone, and that no two entities
-- clash.
use adaptive_api_routing_gat.Base.{
  Bool, true, false, some, Text, same, same_iff, Map, lookup, insert, delete, values, any, In, here,
  there, In-cases, ap, List, [], ◌∷◌, lookup_of_any-false, lookup-insert, lookup-delete,
  lookup-insert_cases, lookup-delete_cases, Distinct, insert-Distinct, delete-Distinct,
  lookup_of_In, ok, err, err_not_found, if◌then◌else◌, ◌≡◌, ◌≢◌, sym, ◌∙◌, arith, Bool-cases, inl,
  inr,
}
use adaptive_api_routing_gat.Store.Table.{
  find, find_in, get, remove, create, update, clashes_elsewhere,
}

module _ {V : Type 0} (id_of : V → Text) (clash : V → V → Bool) where
  -- Entities are stored under their own IDs, and no two of them clash.
  pub record IsTable (m : Map V) : Type 0 where
    pub keyed : (k : Text) (v : V) → lookup k m ≡ some v → id_of v ≡ k
    pub distinct : Distinct m
    pub apart :
        (k j : Text) (v w : V)
        → lookup k m ≡ some v
        → lookup j m ≡ some w
        → k ≢ j
        → clash v w ≡ false

  pub empty-IsTable : IsTable []
  unfolding lookup
  empty-IsTable = record {
    keyed = λ k v e. ground arith;
    distinct = tt;
    apart = λ k j v w e f d. ground arith;
  }

  -- An entry under an ID of its own that clashes with no entry elsewhere may be written.
  pub insert-IsTable :
      ((v w : V) → clash v w ≡ true → clash w v ≡ true)
      → (x : V) (m : Map V)
      → ((j : Text) (w : V) → lookup j m ≡ some w → j ≢ id_of x → clash w x ≡ false)
      → IsTable m
      → IsTable (insert (id_of x) x m)
  insert-IsTable symmetric x m free t = record {
    keyed = λ k v e. elim (lookup-insert_cases (id_of x) k x v m e) [
      | inl (at_x, is_x) ↦ rw (← is_x) at_x
      | inr (other, old) ↦ t.keyed k v old
    ];
    distinct = insert-Distinct (id_of x) x m t.distinct;
    apart = λ k j v w e f d. elim (lookup-insert_cases (id_of x) k x v m e) [
      | inl (at_x, is_x) ↦ elim (lookup-insert_cases (id_of x) j x w m f) [
        | inl (at_x', _) ↦ absurd (d (sym at_x ∙ at_x'))
        | inr (other, old) ↦ rw (← is_x) (no_clash x w (free j w old other))
      ]
      | inr (other, old) ↦ elim (lookup-insert_cases (id_of x) j x w m f) [
        | inl (at_x, is_x) ↦ rw (← is_x) (free k v old other)
        | inr (_, old') ↦ t.apart k j v w old old' d
      ]
    ];
  }
    where
      no_clash : (v w : V) → clash w v ≡ false → clash v w ≡ false
      no_clash v w h = ground (arith, symmetric v w)

  pub remove-IsTable : (k : Text) (m : Map V) → IsTable m → IsTable (delete k m)
  remove-IsTable k m t = record {
    keyed = λ j v e. t.keyed j v (lookup-delete_cases k j v m e).1;
    distinct = delete-Distinct k m t.distinct;
    apart = λ i j v w e f d.
        t.apart i j v w (lookup-delete_cases k i v m e).1 (lookup-delete_cases k j w m f).1 d;
  }

  pub create_ok :
      (x : V) (m : Map V) {m' : Map V}
      → create id_of clash x m ≡ ok m'
      → (any (λ exist. clash exist x) (values m) ≡ false) × (m' ≡ insert (id_of x) x m)
  unfolding create
  create_ok x m e = ground arith

  pub update_ok :
      (x : V) (m : Map V) {m' : Map V}
      → update id_of clash x m ≡ ok m'
      → (any (clashes_elsewhere id_of clash x) (values m) ≡ false) × (m' ≡ insert (id_of x) x m)
  unfolding update
  update_ok x m e = ground arith

  remove_ok : (k : Text) (m : Map V) {m' : Map V} → remove k m ≡ ok m' → m' ≡ delete k m
  unfolding remove
  remove_ok k m e = ground arith

  free_elsewhere :
      (x w : V) → clashes_elsewhere id_of clash x w ≡ false → id_of w ≢ id_of x → clash w x ≡ false
  free_elsewhere x w h d = ground (arith, same_iff (id_of w) (id_of x))

  -- After a creation that succeeds, a read of the new entity's ID returns it, and every other
  -- read is what it was.
  pub get-create :
      (x : V) (m : Map V) {m' : Map V} (k : Text)
      → create id_of clash x m ≡ ok m'
      → get k m' ≡ (if same (id_of x) k then ok x else get k m)
  unfolding get
  get-create x m k e = rw ((create_ok x m e).1) (ground (arith, lookup-insert (id_of x) k x m))

  -- After an update that succeeds, a read of the entity's ID returns its new value, and every
  -- other read is what it was.
  pub get-update :
      (x : V) (m : Map V) {m' : Map V} (k : Text)
      → update id_of clash x m ≡ ok m'
      → get k m' ≡ (if same (id_of x) k then ok x else get k m)
  unfolding get
  get-update x m k e = rw ((update_ok x m e).1) (ground (arith, lookup-insert (id_of x) k x m))

  -- After a deletion that succeeds, a read of the ID finds nothing, and every other read is what
  -- it was.
  pub get-remove :
      (x k : Text) (m : Map V) {m' : Map V}
      → remove x m ≡ ok m'
      → get k m' ≡ (if same x k then err err_not_found else get k m)
  unfolding get
  get-remove x k m e = rw (remove_ok x m e) (ground (arith, lookup-delete x k m))

  pub remove-IsTable_of_ok :
      (k : Text) (m : Map V) {m' : Map V} → remove k m ≡ ok m' → IsTable m → IsTable m'
  remove-IsTable_of_ok k m e t = rw (remove_ok k m e) (remove-IsTable k m t)

  module _ (symmetric : (v w : V) → clash v w ≡ true → clash w v ≡ true) where
    pub create-IsTable :
        (x : V) (m : Map V) {m' : Map V} → create id_of clash x m ≡ ok m' → IsTable m → IsTable m'
    create-IsTable x m e t =
        let (free, written) = create_ok x m e in
        rw written (
          insert-IsTable symmetric x m
            (λ j w found _. lookup_of_any-false (λ exist. clash exist x) m j w free found) t)

    pub update-IsTable :
        (x : V) (m : Map V) {m' : Map V} → update id_of clash x m ≡ ok m' → IsTable m → IsTable m'
    update-IsTable x m e t =
        let (free, written) = update_ok x m e in
        rw written (
          insert-IsTable symmetric x m
            (λ j w found other.
              free_elsewhere x w
                (lookup_of_any-false (clashes_elsewhere id_of clash x) m j w free found)
                (λ q. other (sym (t.keyed j w found) ∙ q)))
            t)

  -- Two entities that `range` visits and that clash are one.
  pub clash_unique :
      {v w : V} (m : Map V)
      → IsTable m
      → In v (values m)
      → In w (values m)
      → clash v w ≡ true
      → v ≡ w
  clash_unique m t i i' h =
      let (k, found) = lookup_of_In m t.distinct i in
      let (j, found') = lookup_of_In m t.distinct i' in
      elim (Bool-cases (same k j)) [
        | inl hit ↦ ground (arith, same_iff k j)
        | inr miss ↦
            absurd
              (ground (arith, t.apart k j _ _ found found' (λ p. ground (arith, same_iff k j))))
      ]

module _ {V : Type 0} (test : V → Bool) where
  find_in_sound : (vs : List V) {v : V} → find_in test vs ≡ ok v → In v vs × (test v ≡ true)
  unfolding find_in
  find_in_sound [] e = absurd (no_result e)
    where
      no_result : {v : V} → err err_not_found ≡ ok v → ⊥
      no_result p = cc
  find_in_sound (w ∷ vs) {v} e = elim (Bool-cases (test w)) [
    | inl fits ↦ let p : w ≡ v = ground arith in rw (← p) (here, fits)
    | inr other ↦ let (i, fits) = find_in_sound vs (rw other at e) in (there i, fits)
  ]

  pub find_sound : (m : Map V) {v : V} → find test m ≡ ok v → In v (values m) × (test v ≡ true)
  unfolding find
  find_sound m e = find_in_sound (values m) e

  find_in_unique :
      (vs : List V) {v : V}
      → In v vs
      → test v ≡ true
      → ((w : V) → In w vs → test w ≡ true → w ≡ v)
      → find_in test vs ≡ ok v
  unfolding find_in
  find_in_unique [] i fits unique = elim i [ ]
  find_in_unique (w ∷ vs) {v} i fits unique = elim (Bool-cases (test w)) [
    | inl first ↦ rw (first, unique w here first)
    | inr other ↦ rw other (elim (In-cases i) [
      | inl at_w ↦ absurd (clash (sym fits ∙ ap test at_w ∙ other))
      | inr later ↦ find_in_unique vs later fits (λ u j. unique u (there j))
    ])
  ]
    where
      clash : true ≡ false → ⊥
      clash p = cc

  -- A search finds the only entity that meets its test.
  pub find_unique :
      (m : Map V) {v : V}
      → In v (values m)
      → test v ≡ true
      → ((w : V) → In w (values m) → test w ≡ true → w ≡ v)
      → find test m ≡ ok v
  unfolding find
  find_unique m i fits unique = find_in_unique (values m) i fits unique
