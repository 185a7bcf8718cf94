-- ===== src/Flow/Batches.antt =====
-- Batches and pooled requests: the parts of internal/flowmodel, internal/flowstore,
-- internal/flowservice and internal/flowhandler that share slices. A slice is the address of its
-- array and a count of its items, which start at the array's beginning; two slices can share an
-- array. The array of a copy is as long as the copy.
pub mod Arrays
pub mod Isolation
pub mod Pooling
use adaptive_api_routing_gat.Base.{
  ℕ, zero, suc, ◌+◌, ◌==◌, Bool, true, false, Option, none, some, Text, codes, Map, lookup, insert,
  List, [], ◌∷◌, ◌++◌, length, take, drop, leb, if◌then◌else◌,
}

pub record Slice : Type 0 where
  pub array : ℕ
  pub count : ℕ

-- The arrays, and the first address that is free.
pub record Heap : Type 0 where
  pub arrays : ℕ → List Text
  pub free : ℕ

abbrev pub items_of : Heap → Slice → List Text
items_of h s = take s.count (h.arrays s.array)

abbrev pub store_array : ℕ → List Text → Heap → Heap
store_array a xs h = record h { arrays = λ b. if b == a then xs else h.arrays b }

-- A new array that holds the given items.
unfoldable pub allocate : List Text → Heap → Heap × Slice
allocate xs h = (
  record (store_array h.free xs h) { free = h.free + 1 },
  record { array = h.free; count = length xs },
)

-- `append([]string(nil), s...)`
unfoldable pub copy : Slice → Heap → Heap × Slice
unfolding allocate
copy s h = allocate (items_of h s) h

-- `append(s[:0], xs...)`: into the array of `s` if the items fit.
unfoldable pub overwrite : Slice → List Text → Heap → Heap × Slice
unfolding allocate
overwrite s xs h =
    let old = h.arrays s.array in
    if leb (length xs) (length old)
    then (
      store_array s.array (xs ++ drop (length xs) old) h,
      record { array = s.array; count = length xs },
    )
    else allocate xs h

pub record Batch : Type 0 where
  pub tenant : Text
  pub items : Slice

abbrev pub zero_batch : Batch
zero_batch = record { tenant = []; items = record { array = 0; count = 0 } }

-- `Snapshot`
unfoldable pub batch_snapshot : Batch → Heap → Heap × Batch
unfolding copy
batch_snapshot b h = let (h', s) = copy b.items h in (h', record b { items = s })

-- The arrays and the batches of the store.
pub record BatchStore : Type 0 where
  pub heap : Heap
  pub batches : Map Batch

unfoldable pub save_batch : Batch → BatchStore → BatchStore
unfolding batch_snapshot
save_batch b s =
    let (h, saved) = batch_snapshot b s.heap in
    record { heap = h; batches = insert b.tenant saved s.batches }

-- `Batch` of the store; the batch of an unknown tenant is the zero value.
unfoldable pub batch : Text → BatchStore → BatchStore × Batch
unfolding batch_snapshot
batch tenant s =
    let stored : Batch = elim (lookup tenant s.batches) [ some b ↦ b | none ↦ zero_batch ] in
    let (h, b) = batch_snapshot stored s.heap in (record s { heap = h }, b)

unfoldable pub queue_batch : Batch → BatchStore → BatchStore × Batch
unfolding batch_snapshot save_batch
queue_batch b s =
    let (h, snapshot) = batch_snapshot b s.heap in
    (save_batch snapshot (record s { heap = h }), snapshot)

unfoldable pub cached_batch : Text → BatchStore → BatchStore × Batch
unfolding batch
cached_batch tenant s = batch tenant s

-- The two batches that are returned, with the store and the arrays at the end.
unfoldable pub snapshot_sequence : (first second : Batch) → BatchStore → BatchStore × Batch × Batch
unfolding queue_batch overwrite batch_snapshot cached_batch
snapshot_sequence first second s =
    let (s1, queued) = queue_batch first s in
    let (h, _) = overwrite first.items (items_of s1.heap second.items) s1.heap in
    let (s2, _) = queue_batch second (record s1 { heap = h }) in
    let (h', returned) = batch_snapshot queued s2.heap in
    let (s3, cached) = cached_batch queued.tenant (record s2 { heap = h' }) in
    (s3, returned, cached)

pub record PooledRequest : Type 0 where
  pub tenant : Text
  pub headers : Slice

-- `Reset`
unfoldable pub reset_request : PooledRequest → PooledRequest
reset_request p = record { tenant = []; headers = record p.headers { count = 0 } }

-- `Snapshot`
unfoldable pub request_snapshot : PooledRequest → Heap → Heap × PooledRequest
unfolding copy
request_snapshot p h =
    let (h', s) = copy p.headers h in (h', record { tenant = p.tenant; headers = s })

-- A request that the pool holds, or none: `sync.Pool` may hand out any, or make a new one.
abbrev pub Pool : Type 0
Pool = List PooledRequest

abbrev pub at : ℕ → Pool → Option PooledRequest
at k [] = none
at zero (p ∷ ps) = some p
at (suc k) (p ∷ ps) = at k ps

abbrev pub without : ℕ → Pool → Pool
without k [] = []
without zero (p ∷ ps) = ps
without (suc k) (p ∷ ps) = p ∷ without k ps

-- `Get`, with the choice that the pool makes. The headers of a new request are nil, a slice of an
-- array without items.
unfoldable pub pool_get : (choice : ℕ) → Pool → Heap → Pool × Heap × PooledRequest
unfolding allocate
pool_get choice pool h = elim (at choice pool) [
  | some p ↦ (without choice pool, h, p)
  | none ↦ let (h', s) = allocate [] h in (pool, h', record { tenant = []; headers = s })
]

unfoldable pub acquire_request :
    (choice : ℕ) → Text → List Text → Pool → Heap → Pool × Heap × PooledRequest
unfolding pool_get reset_request overwrite
acquire_request choice tenant headers pool h =
    let (pool', h', p) = pool_get choice pool h in
    let clean = reset_request p in
    let (h'', s) = overwrite clean.headers headers h' in
    (pool', h'', record { tenant = tenant; headers = s })

unfoldable pub release_request : PooledRequest → Pool → Pool
unfolding reset_request
release_request p pool = reset_request p ∷ pool

unfoldable pub pool_sequence :
    (first_choice second_choice : ℕ) → Pool → Heap → Pool × Heap × PooledRequest × PooledRequest
unfolding acquire_request request_snapshot release_request
pool_sequence first_choice second_choice pool h =
    let (pool1, h1, first) =
      acquire_request first_choice (codes "tenant-a") (codes "a" ∷ []) pool h in
    let (h2, first_snapshot) = request_snapshot first h1 in
    let (pool2, h3, second) =
      acquire_request second_choice (codes "tenant-b") (codes "b" ∷ [])
        (release_request first pool1) h2 in
    let (h4, second_snapshot) = request_snapshot second h3 in
    (release_request second pool2, h4, first_snapshot, second_snapshot)
