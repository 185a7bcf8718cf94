-- ===== src/Flow/Batches/Arrays.antt =====
-- What a write to one array leaves of the others.
use adaptive_api_routing_gat.Base.{
  ◌<◌, ◌≤◌, ◌≡◌, ◌≢◌, refl, ap, Text, List, [], ◌∷◌, ◌++◌, length, take, drop, leb, Bool-cases, inl,
  inr, arith,
}
use adaptive_api_routing_gat.Flow.Batches.{Slice, Heap, items_of, allocate, overwrite}

take-length : (xs ys : List Text) → take (length xs) (xs ++ ys) ≡ xs
take-length [] ys = refl
take-length (x ∷ xs) ys = ap (◌∷◌ x) (take-length xs ys)

take-length_nil : (xs : List Text) → take (length xs) xs ≡ xs
take-length_nil [] = refl
take-length_nil (x ∷ xs) = ap (◌∷◌ x) (take-length_nil xs)

-- A slice whose array has been allocated.
abbrev pub IsIn : Heap → Slice → Type 0
IsIn h s = s.array < h.free

-- After an allocation: the new slice holds the items, and every other slice what it held.
pub allocate-items :
    (xs : List Text) (h : Heap)
    → (items_of (allocate xs h).0 (allocate xs h).1 ≡ xs)
      × ((s : Slice) → IsIn h s → items_of (allocate xs h).0 s ≡ items_of h s)
unfolding allocate
allocate-items xs h = (ground (arith, take-length_nil xs), λ s i. ground arith)

-- After an overwrite: the slice that it answers holds the items, and a slice of another array what
-- it held.
pub overwrite-items :
    (s : Slice) (xs : List Text) (h : Heap)
    → (items_of (overwrite s xs h).0 (overwrite s xs h).1 ≡ xs)
      × ((t : Slice)
          → IsIn h t
          → t.array ≢ s.array
          → items_of (overwrite s xs h).0 t ≡ items_of h t)
unfolding overwrite
overwrite-items s xs h = elim (Bool-cases (leb (length xs) (length (h.arrays s.array)))) [
  | inl fits ↦ (
    ground (arith, take-length xs (drop (length xs) (h.arrays s.array))),
    λ t i apart. ground arith,
  )
  | inr long ↦ (rw long (allocate-items xs h).0, λ t i apart. rw long ((allocate-items xs h).1 t i))
]

-- Addresses are only ever added.
pub overwrite-free : (s : Slice) (xs : List Text) (h : Heap) → h.free ≤ (overwrite s xs h).0.free
unfolding overwrite allocate
overwrite-free s xs h = ground arith
