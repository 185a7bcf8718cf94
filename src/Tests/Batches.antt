-- ===== src/Tests/Batches.antt =====
-- A batch whose array is written to, and a pool with one request.
use adaptive_api_routing_gat.Base.{same, ◌==◌, if◌then◌else◌, codes, [], ◌∷◌, ◌≡◌, arith}
use adaptive_api_routing_gat.Flow.Batches.{
  Heap, items_of, Batch, BatchStore, snapshot_sequence, PooledRequest,
}
use adaptive_api_routing_gat.Flow.Batches.Isolation.{snapshot_sequence-isolated}

abbrev heap : Heap
heap = record {
  arrays = λ a. if a == 0 then codes "route-a" ∷ codes "route-b" ∷ [] else codes "route-x" ∷ [];
  free = 2;
}

abbrev first : Batch
first = record { tenant = codes "alpha"; items = record { array = 0; count = 2 } }

abbrev second : Batch
second = record { tenant = codes "beta"; items = record { array = 1; count = 1 } }

abbrev batches : BatchStore
batches = record { heap = heap; batches = [] }

snapshot_sequence-isolated_example :
    (items_of
        (snapshot_sequence first second batches).0.heap
        (snapshot_sequence first second batches).1.items
      ≡ items_of heap first.items)
    × (items_of
          (snapshot_sequence first second batches).0.heap
          (snapshot_sequence first second batches).2.items
        ≡ codes "route-a" ∷ codes "route-b" ∷ [])
unfolding same
snapshot_sequence-isolated_example = snapshot_sequence-isolated first second batches (omega arith)

abbrev pooled : PooledRequest
pooled = record { tenant = []; headers = record { array = 0; count = 0 } }
