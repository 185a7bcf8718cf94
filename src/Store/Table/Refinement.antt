-- ===== src/Store/Table/Refinement.antt =====
-- What a table promises, without the order or the list that it is kept in: a partial function from
-- identifiers to entities.
use adaptive_api_routing_gat.Base.{
  Bool, true, false, Option, none, some, Option-cases, Text, same, same_iff, Map, lookup, insert,
  delete, values, any, In, here, there, lookup_of_any-false, lookup-insert, lookup-delete,
  lookup_of_In, Result, Result-cases, ok, err, err_not_found, err_conflict, if◌then◌else◌, ◌≡◌, ◌≢◌,
  sym, ◌∙◌, List, [], ◌∷◌, arith, Bool-cases, inl, inr,
}
use adaptive_api_routing_gat.Store.Table.{remove, create, update, clashes_elsewhere}
use adaptive_api_routing_gat.Store.Table.Laws.{
  IsTable, empty-IsTable, create-IsTable, update-IsTable, remove-IsTable_of_ok,
}

-- The abstract state, and its change at one identifier.
abbrev pub View : Type 0 → Type 0
View V = Text → Option V

abbrev pub put : {V : Type 0} → Text → Option V → View V → View V
put k o st = λ j. if same k j then o else st j

abbrev pub view : {V : Type 0} → Map V → View V
view m = λ k. lookup k m

pub data Operation (V : Type 0) : Type 0 where
  to_create to_update : V → Operation V
  to_remove : Text → Operation V

module _ {V : Type 0} (id_of : V → Text) (clash : V → V → Bool) where
  -- An entity of the abstract state that clashes with `v`, under another identifier than `k`.
  abbrev pub Clashes : V → View V → Type 0
  Clashes v st = (k : Text) × (w : V) × (st k ≡ some w) × (clash w v ≡ true)

  abbrev pub ClashesElsewhere : V → View V → Type 0
  ClashesElsewhere v st =
      (k : Text) × (w : V) × (st k ≡ some w) × (k ≢ id_of v) × (clash w v ≡ true)

  -- What an operation may do to the abstract state, and what it answers.
  pub data Specified (st : View V) : Operation V → View V → Result (Unit {0}) → Type 0 where
    created :
        (v : V) → ¬ Clashes v st → Specified st (to_create v) (put (id_of v) (some v) st) (ok tt)
    create_refused : (v : V) → Clashes v st → Specified st (to_create v) st (err err_conflict)
    updated :
        (v old : V)
        → st (id_of v) ≡ some old
        → ¬ ClashesElsewhere v st
        → Specified st (to_update v) (put (id_of v) (some v) st) (ok tt)
    update_refused :
        (v old : V)
        → st (id_of v) ≡ some old
        → ClashesElsewhere v st
        → Specified st (to_update v) st (err err_conflict)
    update_missing :
        (v : V) → st (id_of v) ≡ none → Specified st (to_update v) st (err err_not_found)
    removed :
        (k : Text) (old : V) → st k ≡ some old → Specified st (to_remove k) (put k none st) (ok tt)
    remove_missing : (k : Text) → st k ≡ none → Specified st (to_remove k) st (err err_not_found)

  -- A table is replaced where the operation succeeds, and left as it is where it fails.
  abbrev pub after : Map V → Result (Map V) → Map V × Result (Unit {0})
  after m (ok m') = (m', ok tt)
  after m (err e) = (m, err e)

  unfoldable pub run_operation : Operation V → Map V → Map V × Result (Unit {0})
  run_operation (to_create v) m = after m (create id_of clash v m)
  run_operation (to_update v) m = after m (update id_of clash v m)
  run_operation (to_remove k) m = after m (remove k m)

  view-insert : (k : Text) (v : V) (m : Map V) → view (insert k v m) ≡ put k (some v) (view m)
  view-insert k v m = λ i j. lookup-insert k j v m i

  view-delete : (k : Text) (m : Map V) → view (delete k m) ≡ put k none (view m)
  view-delete k m = λ i j. lookup-delete k j m i

true-ne-false : true ≡ false → ⊥
true-ne-false e = cc

any_cases :
    {V : Type 0} (p : V → Bool) (vs : List V) → any p vs ≡ true → (v : V) × In v vs × (p v ≡ true)
any_cases p [] h = absurd (ground arith)
any_cases p (v ∷ vs) h = elim (Bool-cases (p v)) [
  | inl e ↦ (v, here, e)
  | inr e ↦ let (w, i, q) = any_cases p vs (ground arith) in (w, there i, q)
]

module _ {V : Type 0} (id_of : V → Text) (clash : V → V → Bool) (m : Map V)
    (t : IsTable id_of clash m) where
  found_of_any :
      (p : V → Bool)
      → any p (values m) ≡ true
      → (k : Text) × (w : V) × (lookup k m ≡ some w) × (p w ≡ true)
  found_of_any p h =
      let (w, i, q) = any_cases p (values m) h in
      let (k, found) = lookup_of_In m t.distinct i in (k, w, found, q)

  create-Specified :
      (v : V)
      → Specified id_of clash
          (view m)
          (to_create v)
          (view (run_operation id_of clash (to_create v) m).0)
          (run_operation id_of clash (to_create v) m).1
  unfolding run_operation create
  create-Specified v = elim (Bool-cases (any (λ exist. clash exist v) (values m))) [
    | inl taken ↦ rw taken (create_refused v (found_of_any (λ exist. clash exist v) taken))
    | inr free ↦
        rw (free, create, view-insert id_of clash (id_of v) v m)
          (created v (λ c.
            true-ne-false
              (sym c.3 ∙ lookup_of_any-false (λ exist. clash exist v) m c.0 c.1 free c.2)))
  ]

  apart_of :
      (v w : V) (k : Text)
      → lookup k m ≡ some w
      → clashes_elsewhere id_of clash v w ≡ true
      → (k ≢ id_of v) × (clash w v ≡ true)
  apart_of v w k found h =
      (λ e. let q = t.keyed k w found in ground (arith, same_iff (id_of w) (id_of v)), ground arith)

  elsewhere_of :
      (v w : V) (k : Text)
      → lookup k m ≡ some w
      → k ≢ id_of v
      → clash w v ≡ true
      → clashes_elsewhere id_of clash v w ≡ true
  elsewhere_of v w k found apart h =
      let q = t.keyed k w found in
      let differ : id_of w ≢ id_of v = λ e. apart (sym q ∙ e) in
      ground (arith, same_iff (id_of w) (id_of v))

  update-Specified :
      (v : V)
      → Specified id_of clash
          (view m)
          (to_update v)
          (view (run_operation id_of clash (to_update v) m).0)
          (run_operation id_of clash (to_update v) m).1
  unfolding run_operation update
  update-Specified v = elim (Option-cases (lookup (id_of v) m)) [
    | inl missing ↦ rw (missing, update) (update_missing v missing)
    | inr (old, found) ↦
        let p = clashes_elsewhere id_of clash v in
        elim (Bool-cases (any p (values m))) [
          | inl taken ↦
              let (k, w, at_k, h) = found_of_any p taken in
              let (apart, c) = apart_of v w k at_k h in
              rw (found, taken, update) (update_refused v old found (k, w, at_k, apart, c))
          | inr free ↦
              rw (found, free, update, view-insert id_of clash (id_of v) v m)
                (updated v old found (λ c. true-ne-false (
                  sym (elsewhere_of v c.1 c.0 c.2 c.3 c.4)
                  ∙ lookup_of_any-false p m c.0 c.1 free c.2)))
        ]
  ]

  remove-Specified :
      (k : Text)
      → Specified id_of clash
          (view m)
          (to_remove k)
          (view (run_operation id_of clash (to_remove k) m).0)
          (run_operation id_of clash (to_remove k) m).1
  unfolding run_operation remove
  remove-Specified k = elim (Option-cases (lookup k m)) [
    | inl missing ↦ rw (missing, remove) (remove_missing k missing)
    | inr (old, found) ↦ rw (found, remove, view-delete id_of clash k m) (removed k old found)
  ]

  operation-Specified :
      (o : Operation V)
      → Specified id_of clash
          (view m)
          o
          (view (run_operation id_of clash o m).0)
          (run_operation id_of clash o m).1
  operation-Specified (to_create v) = create-Specified v
  operation-Specified (to_update v) = update-Specified v
  operation-Specified (to_remove k) = remove-Specified k

  operation-IsTable :
      ((v w : V) → clash v w ≡ true → clash w v ≡ true)
      → (o : Operation V) → IsTable id_of clash (run_operation id_of clash o m).0
  unfolding run_operation
  operation-IsTable symmetric (to_create v) = elim (Result-cases (create id_of clash v m)) [
    | inl (m', e) ↦ rw e (create-IsTable id_of clash symmetric v m e t)
    | inr (x, e) ↦ rw e t
  ]
  operation-IsTable symmetric (to_update v) = elim (Result-cases (update id_of clash v m)) [
    | inl (m', e) ↦ rw e (update-IsTable id_of clash symmetric v m e t)
    | inr (x, e) ↦ rw e t
  ]
  operation-IsTable symmetric (to_remove k) = elim (Result-cases (remove k m)) [
    | inl (m', e) ↦ rw e (remove-IsTable_of_ok id_of clash k m e t)
    | inr (x, e) ↦ rw e t
  ]

module _ {V : Type 0} (id_of : V → Text) (clash : V → V → Bool) where
  -- The operations of a list, in order, with their answers.
  unfoldable pub run_operations : List (Operation V) → Map V → Map V × List (Result (Unit {0}))
  unfolding run_operation
  run_operations [] m = (m, [])
  run_operations (o ∷ os) m =
      let (m', result) = run_operation id_of clash o m in
      let (m'', results) = run_operations os m' in (m'', result ∷ results)

  -- The same, of the abstract state.
  pub data Specifies
      : View V → List (Operation V) → View V → List (Result (Unit {0})) → Type 0 where
    done : {st : View V} → Specifies st [] st []
    then_ :
        {st st' st'' : View V} {o : Operation V} {os : List (Operation V)}
        {result : Result (Unit {0})} {results : List (Result (Unit {0}))}
        → Specified id_of clash st o st' result
        → Specifies st' os st'' results
        → Specifies st (o ∷ os) st'' (result ∷ results)

  module _ (symmetric : (v w : V) → clash v w ≡ true → clash w v ≡ true) where
    refines_from :
        (os : List (Operation V)) (m : Map V)
        → IsTable id_of clash m
        → Specifies (view m) os (view (run_operations os m).0) (run_operations os m).1
    unfolding run_operations
    refines_from [] m t = done
    refines_from (o ∷ os) m t = then_ (operation-Specified id_of clash m t o) (
        refines_from os (run_operation id_of clash o m).0
          (operation-IsTable id_of clash m t symmetric o))

    -- A table refines its abstract specification: from the empty table on, every sequence of
    -- creations, updates and deletions answers what the specification of a partial function from
    -- identifiers to entities allows, and leads to the function that it allows: a creation or an
    -- update is refused exactly where another entity clashes.
    pub run_operations-Specifies :
        (os : List (Operation V))
        → Specifies (view []) os (view (run_operations os []).0) (run_operations os []).1
    run_operations-Specifies os = refines_from os [] (empty-IsTable id_of clash)
