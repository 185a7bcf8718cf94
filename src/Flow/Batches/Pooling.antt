-- ===== src/Flow/Batches/Pooling.antt =====
-- The requests that share the arrays of a pool.
use adaptive_api_routing_gat.Base.{
  ℕ, zero, suc, ◌<◌, ◌≤◌, ◌≡◌, refl, ap, ◌∙◌, some, Option-cases, some-injective, none-ne-some,
  Text, codes, List, [], ◌∷◌, inl, inr, arith,
}
use adaptive_api_routing_gat.Flow.Batches.{
  Slice, Heap, items_of, allocate, copy, overwrite, PooledRequest, reset_request, request_snapshot,
  Pool, at, without, pool_get, acquire_request, release_request, pool_sequence,
}
use adaptive_api_routing_gat.Flow.Batches.Arrays.{
  IsIn, allocate-items, overwrite-items, overwrite-free,
}
use adaptive_api_routing_gat.Flow.Batches.Isolation.{copy-items, copy-Keeps}

-- The arrays of the requests in a pool lie below an address.
abbrev pub IsBelow : ℕ → Pool → Type 0
IsBelow bound [] = Unit
IsBelow bound (p ∷ ps) = (p.headers.array < bound) × IsBelow bound ps

at-IsBelow :
    (bound k : ℕ) (pool : Pool) {p : PooledRequest}
    → IsBelow bound pool
    → at k pool ≡ some p
    → p.headers.array < bound
at-IsBelow bound k [] b e = absurd (none-ne-some e)
at-IsBelow bound zero (p ∷ ps) (b, bs) e =
    let q = ap (λ (o : PooledRequest). o.headers.array) (some-injective e) in omega (arith, q, b)
at-IsBelow bound (suc k) (p ∷ ps) (b, bs) e = at-IsBelow bound k ps bs e

grow-IsBelow :
    (bound bound' : ℕ) (pool : Pool) → bound ≤ bound' → IsBelow bound pool → IsBelow bound' pool
grow-IsBelow bound bound' [] h b = tt
grow-IsBelow bound bound' (p ∷ ps) h (b, bs) = (omega (arith, b), grow-IsBelow bound bound' ps h bs)

without-IsBelow : (bound k : ℕ) (pool : Pool) → IsBelow bound pool → IsBelow bound (without k pool)
without-IsBelow bound k [] b = tt
without-IsBelow bound zero (p ∷ ps) (b, bs) = bs
without-IsBelow bound (suc k) (p ∷ ps) (b, bs) = (b, without-IsBelow bound k ps bs)

-- A request that was acquired has the headers that it was acquired with, in an array that the pool
-- had or a new one, and a slice of an array above the pool's holds what it held.
record IsAcquired (tenant : Text) (headers : List Text) (pool : Pool) (h : Heap) (pool' : Pool)
    (h' : Heap) (p : PooledRequest) : Type 0 where
  for_tenant : p.tenant ≡ tenant
  held : items_of h' p.headers ≡ headers
  inside : IsIn h' p.headers
  grown : h.free ≤ h'.free
  below : IsBelow h'.free pool'
  kept : (t : Slice) → IsIn h t → IsBelow t.array pool → items_of h' t ≡ items_of h t

overwrite-IsIn :
    (s : Slice) (xs : List Text) (h : Heap)
    → IsIn h s
    → IsIn (overwrite s xs h).0 (overwrite s xs h).1
unfolding overwrite allocate
overwrite-IsIn s xs h i = ground arith

module _ (choice : ℕ) (tenant : Text) (headers : List Text) (pool : Pool) (h : Heap)
    (b : IsBelow h.free pool) where
  acquire_request-IsAcquired :
      IsAcquired tenant headers pool h
        (acquire_request choice tenant headers pool h).0
        (acquire_request choice tenant headers pool h).1
        (acquire_request choice tenant headers pool h).2
  unfolding acquire_request pool_get reset_request
  acquire_request-IsAcquired = elim (Option-cases (at choice pool)) [
    | inr (p, e) ↦
        let clean : Slice = record p.headers { count = 0 } in
        let written = overwrite-items clean headers h in
        let address = at-IsBelow h.free choice pool b e in
        let grown = overwrite-free clean headers h in
        rw (e, acquire_request, pool_get)
          (record {
            for_tenant = refl;
            held = written.0;
            inside = overwrite-IsIn clean headers h address;
            grown = grown;
            below =
                grow-IsBelow h.free _ (without choice pool) grown
                  (without-IsBelow h.free choice pool b);
            kept = λ t i above.
                let lower = at-IsBelow t.array choice pool above e in written.1 t i (omega arith);
          })
    | inl e ↦
        let (h1, fresh) = allocate [] h in
        let clean : Slice = record fresh { count = 0 } in
        let written = overwrite-items clean headers h1 in
        let grown = overwrite-free clean headers h1 in
        let one_more : h.free < h1.free = omega arith in
        rw (e, acquire_request, pool_get)
          (record {
            for_tenant = refl;
            held = written.0;
            inside = overwrite-IsIn clean headers h1 (omega arith);
            grown = omega (arith, grown);
            below = grow-IsBelow h.free _ pool (omega (arith, grown)) b;
            kept = λ t i above.
                written.1 t (omega (arith, i)) (omega (arith, i)) ∙ (allocate-items [] h).1 t i;
          })
  ]

-- Whatever requests the pool hands out, its own or new ones, each of the two snapshots has the
-- tenant and the headers that its request was acquired with: the headers of the first are not
-- written over when the second is acquired, although it may get the same array.
pool_sequence-isolated :
    (first_choice second_choice : ℕ) (pool : Pool) (h : Heap)
    → IsBelow h.free pool
    → ((pool_sequence first_choice second_choice pool h).2.tenant ≡ codes "tenant-a")
      × (items_of
            (pool_sequence first_choice second_choice pool h).1
            (pool_sequence first_choice second_choice pool h).2.headers
          ≡ codes "a" ∷ [])
      × ((pool_sequence first_choice second_choice pool h).3.tenant ≡ codes "tenant-b")
      × (items_of
            (pool_sequence first_choice second_choice pool h).1
            (pool_sequence first_choice second_choice pool h).3.headers
          ≡ codes "b" ∷ [])
unfolding pool_sequence request_snapshot release_request reset_request
pool_sequence-isolated first_choice second_choice pool h b =
    let (pool1, h1, first) =
      acquire_request first_choice (codes "tenant-a") (codes "a" ∷ []) pool h in
    let q1 = acquire_request-IsAcquired first_choice (codes "tenant-a") (codes "a" ∷ []) pool h b in
    let (h2, c1) = copy first.headers h1 in
    let (copied1, own1, in1) = copy-items first.headers h1 in
    let pool1' = release_request first pool1 in
    let keeps1 = copy-Keeps first.headers h1 in
    let below1 : IsBelow h1.free pool1' = (q1.inside, q1.below) in
    let q2 =
      acquire_request-IsAcquired second_choice (codes "tenant-b") (codes "b" ∷ []) pool1' h2
        (grow-IsBelow h1.free h2.free pool1' keeps1.grown below1) in
    let (pool2, h3, second) =
      acquire_request second_choice (codes "tenant-b") (codes "b" ∷ []) pool1' h2 in
    let keeps2 = copy-Keeps second.headers h3 in
    let above : IsBelow c1.array pool1' =
      grow-IsBelow h1.free c1.array pool1' (omega (arith, own1)) below1 in
    (
      q1.for_tenant,
      keeps2.kept c1 (omega (arith, in1, q2.grown)) ∙ q2.kept c1 in1 above ∙ copied1 ∙ q1.held,
      q2.for_tenant,
      (copy-items second.headers h3).0 ∙ q2.held,
    )
