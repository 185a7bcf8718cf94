-- ===== src/Base/Maps.antt =====
-- A Go map with text keys, as an association list. A key is written by dropping its old entry
-- first. The order of the list stands for one order in which `range` may visit the map.
use mathlib.Core.Path.{◌≡◌}
use mathlib.Core.Logic.{◌≢◌, ◌⊎◌, inl, inr}
use mathlib.Core.Bool.{Bool, false}
use mathlib.Core.Option.{Option, none, some}
use mathlib.Core.List.{List, [], ◌∷◌, map}
use native.Mathlib.Omega.{arith}
use adaptive_api_routing_gat.Base.Tests.{if◌then◌else◌, Bool-cases}
use adaptive_api_routing_gat.Base.Lists.{any, In, here, there}
use adaptive_api_routing_gat.Base.Texts.{Text, same, same→eq, same_refl, same_iff}

abbrev pub Map {ℓ} : Type ℓ → Type ℓ
Map V = List (Text × V)

module _ {ℓ} {V : Type ℓ} where
  unfoldable pub lookup : Text → Map V → Option V
  lookup k [] = none
  lookup k ((j, v) ∷ m) = if same j k then some v else lookup k m

  unfoldable pub delete : Text → Map V → Map V
  delete k [] = []
  delete k ((j, v) ∷ m) = let rest = delete k m in if same j k then rest else (j, v) ∷ rest

  unfoldable pub insert : Text → V → Map V → Map V
  unfolding delete
  insert k v m = (k, v) ∷ delete k m

  abbrev pub values : Map V → List V
  values m = map (λ e. e.1) m

  pub lookup-delete :
      (k j : Text) (m : Map V) → lookup j (delete k m) ≡ (if same k j then none else lookup j m)
  unfolding lookup delete
  lookup-delete k j [] = ground arith
  lookup-delete k j ((i, v) ∷ m) =
      ground (arith, lookup-delete k j m, same_iff i k, same_iff i j, same_iff k j)

  -- A read after a write.
  pub lookup-insert :
      (k j : Text) (v : V) (m : Map V)
      → lookup j (insert k v m) ≡ (if same k j then some v else lookup j m)
  unfolding lookup insert
  lookup-insert k j v m = ground (arith, lookup-delete k j m)

  pub lookup-insert_self : (k : Text) (v : V) (m : Map V) → lookup k (insert k v m) ≡ some v
  lookup-insert_self k v m = ground (arith, lookup-insert k k v m, same_refl k)

  -- A test that no value meets is met by nothing that a lookup finds.
  pub lookup_of_any-false :
      (p : V → Bool) (m : Map V) (k : Text) (v : V)
      → any p (values m) ≡ false
      → lookup k m ≡ some v
      → p v ≡ false
  unfolding lookup
  lookup_of_any-false p [] k v h e = ground arith
  lookup_of_any-false p ((j, w) ∷ m) k v h e = ground (arith, lookup_of_any-false p m k v)

  -- What a lookup finds is visited by `range`.
  pub In-lookup : (k : Text) (m : Map V) {v : V} → lookup k m ≡ some v → In v (values m)
  unfolding lookup
  In-lookup k [] e = ground arith
  In-lookup k ((j, w) ∷ m) {v} e = elim (Bool-cases (same j k)) [
    | inl hit ↦ found (rw hit at e)
    | inr miss ↦ there (In-lookup k m (rw miss at e))
  ]
    where
      found : some w ≡ some v → In v (values ((j, w) ∷ m))
      found q = let p : w ≡ v = ground arith in rw (← p) here

  -- Where a read after a write comes from.
  pub lookup-insert_cases :
      (k j : Text) (v w : V) (m : Map V)
      → lookup j (insert k v m) ≡ some w
      → ((k ≡ j) × (v ≡ w)) ⊎ ((j ≢ k) × (lookup j m ≡ some w))
  lookup-insert_cases k j v w m e = elim (Bool-cases (same k j)) [
    | inl hit ↦ inl (same→eq k j hit, ground (arith, lookup-insert k j v m))
    | inr miss ↦ inr (λ p. ground (arith, same_iff k j), ground (arith, lookup-insert k j v m))
  ]

  pub lookup-delete_cases :
      (k j : Text) (w : V) (m : Map V)
      → lookup j (delete k m) ≡ some w
      → (j ≢ k) × (lookup j m ≡ some w)
  lookup-delete_cases k j w m e = elim (Bool-cases (same k j)) [
    | inl hit ↦ absurd (ground (arith, lookup-delete k j m))
    | inr miss ↦ (λ p. ground (arith, same_iff k j), ground (arith, lookup-delete k j m))
  ]

  -- No key stands twice in the list.
  abbrev pub Distinct : Map V → Type ℓ
  Distinct [] = Unit
  Distinct ((k, v) ∷ m) = (lookup k m ≡ none) × Distinct m

  lookup-delete-none : (k j : Text) (m : Map V) → lookup j m ≡ none → lookup j (delete k m) ≡ none
  lookup-delete-none k j m h = ground (arith, lookup-delete k j m)

  pub delete-Distinct : (k : Text) (m : Map V) → Distinct m → Distinct (delete k m)
  unfolding delete
  delete-Distinct k [] d = tt
  delete-Distinct k ((j, v) ∷ m) (fresh, d) = elim (Bool-cases (same j k)) [
    | inl hit ↦ rw hit (delete-Distinct k m d)
    | inr miss ↦ rw miss (lookup-delete-none k j m fresh, delete-Distinct k m d)
  ]

  pub insert-Distinct : (k : Text) (v : V) (m : Map V) → Distinct m → Distinct (insert k v m)
  unfolding insert
  insert-Distinct k v m d =
      (ground (arith, lookup-delete k k m, same_refl k), delete-Distinct k m d)

  -- What `range` visits is found under some key.
  pub lookup_of_In :
      {v : V} (m : Map V) → Distinct m → In v (values m) → (k : Text) × (lookup k m ≡ some v)
  unfolding lookup
  lookup_of_In [] d i = elim i [ ]
  lookup_of_In ((k, w) ∷ m) d here = (k, ground (arith, same_refl k))
  lookup_of_In ((j, w) ∷ m) (fresh, d) (there i) =
      let (k, found) = lookup_of_In m d i in
      (
        k,
        elim (Bool-cases (same j k)) [
          | inl hit ↦ absurd (ground (arith, same_iff j k))
          | inr miss ↦ rw miss found
        ],
      )

  -- Every entry of a map has a property.
  abbrev pub Everywhere : (Text → V → Type 0) → Map V → Type ℓ
  Everywhere P m = (k : Text) (v : V) → lookup k m ≡ some v → P k v

  pub insert-Everywhere :
      {P : Text → V → Type 0} (k : Text) (v : V) (m : Map V)
      → P k v
      → Everywhere P m
      → Everywhere P (insert k v m)
  insert-Everywhere {P} k v m p all j w e = elim (lookup-insert_cases k j v w m e) [
    | inl (at_k, is_v) ↦ rw (← at_k, ← is_v) p
    | inr (other, old) ↦ all j w old
  ]

  pub delete-Everywhere :
      {P : Text → V → Type 0} (k : Text) (m : Map V) → Everywhere P m → Everywhere P (delete k m)
  delete-Everywhere k m all j w e = all j w (lookup-delete_cases k j w m e).1
