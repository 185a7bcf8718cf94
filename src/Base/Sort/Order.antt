-- ===== src/Base/Sort/Order.antt =====
-- `sort.Slice` by a number, the largest first: what is in the sorted list, and in what order.
use Prim.Native.Nat.{ℕ, zero, suc, ◌≤◌}
use mathlib.Core.Path.{◌≡◌, refl, ap}
use mathlib.Core.Logic.{◌⊎◌, inl, inr}
use mathlib.Core.Bool.{Bool}
use mathlib.Core.List.{List, [], ◌∷◌}
use native.Mathlib.Omega.{arith}
use adaptive_api_routing_gat.Base.Tests.{ltb, Bool-cases}
use adaptive_api_routing_gat.Base.Lists.{In, here, there, In-cases, All, take, count_of, length}
use adaptive_api_routing_gat.Base.Sort.{insert_sorted, sort_slice}

module _ {A : Type 0} (less : A → A → Bool) where
  insert_sorted-In : {t : A} (a : A) (xs : List A) → In t (a ∷ xs) → In t (insert_sorted less a xs)
  unfolding insert_sorted
  insert_sorted-In a [] i = i
  insert_sorted-In a (x ∷ xs) i = elim (Bool-cases (less x a)) [
    | inr e ↦ rw e i
    | inl e ↦ rw e (elim (In-cases i) [
      | inl at_a ↦ there (insert_sorted-In a xs (rw at_a here))
      | inr later ↦ elim (In-cases later) [
        | inl at_x ↦ rw at_x here
        | inr rest ↦ there (insert_sorted-In a xs (there rest))
      ]
    ])
  ]

  -- Sorting loses nothing.
  pub sort_slice-In : {t : A} (xs : List A) → In t xs → In t (sort_slice less xs)
  unfolding sort_slice
  sort_slice-In [] i = i
  sort_slice-In (x ∷ xs) i =
      insert_sorted-In x (sort_slice less xs)
        (elim (In-cases i) [ inl first ↦ rw first here | inr rest ↦ there (sort_slice-In xs rest) ])

  In-insert_sorted : {t : A} (a : A) (xs : List A) → In t (insert_sorted less a xs) → In t (a ∷ xs)
  unfolding insert_sorted
  In-insert_sorted a [] i = i
  In-insert_sorted a (x ∷ xs) i = elim (Bool-cases (less x a)) [
    | inr e ↦ rw e at i
    | inl e ↦ elim (In-cases (rw e at i)) [
      | inl at_x ↦ there (rw at_x here)
      | inr later ↦ elim (In-cases (In-insert_sorted a xs later)) [
        | inl at_a ↦ rw at_a here
        | inr rest ↦ there (there rest)
      ]
    ]
  ]

  -- Sorting invents nothing.
  pub In-sort_slice : {t : A} (xs : List A) → In t (sort_slice less xs) → In t xs
  unfolding sort_slice
  In-sort_slice [] i = i
  In-sort_slice (x ∷ xs) i = elim (In-cases (In-insert_sorted x (sort_slice less xs) i)) [
    | inl first ↦ rw first here
    | inr rest ↦ there (In-sort_slice xs rest)
  ]

  count_of-insert_sorted :
      (p : A → Bool) (a : A) (xs : List A)
      → count_of p (insert_sorted less a xs) ≡ count_of p (a ∷ xs)
  unfolding insert_sorted
  count_of-insert_sorted p a [] = refl
  count_of-insert_sorted p a (x ∷ xs) = ground (arith, count_of-insert_sorted p a xs)

  -- Sorting repeats nothing.
  pub count_of-sort_slice :
      (p : A → Bool) (xs : List A) → count_of p (sort_slice less xs) ≡ count_of p xs
  unfolding sort_slice
  count_of-sort_slice p [] = refl
  count_of-sort_slice p (x ∷ xs) =
      ground (arith, count_of-insert_sorted p x (sort_slice less xs), count_of-sort_slice p xs)

module _ {A : Type 0} (key : A → ℕ) where
  -- The largest numbers come first.
  abbrev pub IsDescending : List A → Type 0
  IsDescending [] = Unit
  IsDescending (x ∷ xs) = All (λ y. key y ≤ key x) xs × IsDescending xs

  abbrev larger : A → A → Bool
  larger a b = ltb (key b) (key a)

  All-le_trans : (m n : ℕ) (xs : List A) → m ≤ n → All (λ y. key y ≤ m) xs → All (λ y. key y ≤ n) xs
  All-le_trans m n [] h hs = tt
  All-le_trans m n (x ∷ xs) h (first, rest) = (omega arith, All-le_trans m n xs h rest)

  insert_sorted-le :
      (n : ℕ) (a : A) (xs : List A)
      → key a ≤ n
      → All (λ y. key y ≤ n) xs
      → All (λ y. key y ≤ n) (insert_sorted larger a xs)
  unfolding insert_sorted
  insert_sorted-le n a [] h hs = (h, tt)
  insert_sorted-le n a (x ∷ xs) h (first, rest) = ground (arith, insert_sorted-le n a xs h rest)

  insert_sorted-IsDescending :
      (a : A) (xs : List A) → IsDescending xs → IsDescending (insert_sorted larger a xs)
  unfolding insert_sorted
  insert_sorted-IsDescending a [] d = (tt, tt)
  insert_sorted-IsDescending a (x ∷ xs) (first, d) = elim (Bool-cases (larger x a)) [
    | inl e ↦
        rw e (insert_sorted-le (key x) a xs (ground arith) first, insert_sorted-IsDescending a xs d)
    | inr e ↦
        let le : key x ≤ key a = ground arith in
        rw e ((le, All-le_trans (key x) (key a) xs le first), (first, d))
  ]

  pub sort_slice-IsDescending : (xs : List A) → IsDescending (sort_slice larger xs)
  unfolding sort_slice
  sort_slice-IsDescending [] = tt
  sort_slice-IsDescending (x ∷ xs) =
      insert_sorted-IsDescending x (sort_slice larger xs) (sort_slice-IsDescending xs)

  All-In : (n : ℕ) {t : A} (xs : List A) → All (λ y. key y ≤ n) xs → In t xs → key t ≤ n
  All-In n [] hs i = elim i [ ]
  All-In n (x ∷ xs) (h, hs) i = elim (In-cases i) [
    | inl first ↦ rw first h
    | inr rest ↦ All-In n xs hs rest
  ]

  All-take : (n k : ℕ) (xs : List A) → All (λ y. key y ≤ n) xs → All (λ y. key y ≤ n) (take k xs)
  All-take n zero xs hs = tt
  All-take n (suc k) [] hs = tt
  All-take n (suc k) (x ∷ xs) (h, hs) = (h, All-take n k xs hs)

  pub take-IsDescending : (k : ℕ) (xs : List A) → IsDescending xs → IsDescending (take k xs)
  take-IsDescending zero xs d = tt
  take-IsDescending (suc k) [] d = tt
  take-IsDescending (suc k) (x ∷ xs) (first, d) =
      (All-take (key x) k xs first, take-IsDescending k xs d)

  -- What is not among the first `k` items is no larger than any of these.
  pub take-largest :
      (k : ℕ) (xs : List A) {t u : A}
      → IsDescending xs
      → In t (take k xs)
      → In u xs
      → In u (take k xs) ⊎ (key u ≤ key t)
  take-largest zero xs d i j = elim i [ ]
  take-largest (suc k) [] d i j = elim j [ ]
  take-largest (suc k) (x ∷ xs) {t} {u} (first, d) i j = elim (In-cases j) [
    | inl at_x ↦ inl (rw at_x here)
    | inr later ↦ elim (In-cases i) [
      | inl at_x ↦ inr (rw at_x (All-In (key x) xs first later))
      | inr earlier ↦ elim (take-largest k xs d earlier later) [
        | inl listed ↦ inl (there listed)
        | inr le ↦ inr le
      ]
    ]
  ]

module _ {A : Type 0} where
  pub In-take : (k : ℕ) (xs : List A) {t : A} → In t (take k xs) → In t xs
  In-take zero xs i = elim i [ ]
  In-take (suc k) [] i = elim i [ ]
  In-take (suc k) (x ∷ xs) i = elim (In-cases i) [
    | inl first ↦ rw first here
    | inr rest ↦ there (In-take k xs rest)
  ]

  pub count_of-take : (p : A → Bool) (k : ℕ) (xs : List A) → count_of p (take k xs) ≤ count_of p xs
  count_of-take p zero xs = omega arith
  count_of-take p (suc k) [] = omega arith
  count_of-take p (suc k) (x ∷ xs) = omega (arith, count_of-take p k xs)

  -- Of a list, either as many items are taken as were asked for, or all.
  pub take-cases : (k : ℕ) (xs : List A) → (length (take k xs) ≡ k) ⊎ (take k xs ≡ xs)
  take-cases zero xs = inl refl
  take-cases (suc k) [] = inr refl
  take-cases (suc k) (x ∷ xs) = elim (take-cases k xs) [
    | inl full ↦ inl (omega (arith, full))
    | inr whole ↦ inr (ap (λ ys. x ∷ ys) whole)
  ]
