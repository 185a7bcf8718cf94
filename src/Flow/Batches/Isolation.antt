-- ===== src/Flow/Batches/Isolation.antt =====
-- What the sequences on batches and on pooled requests return.
use adaptive_api_routing_gat.Base.{
  Option, List, sym, same, if◌then◌else◌, Bool-cases, inl, inr, ◌≤◌, ◌≡◌, ◌≢◌, refl, ap, ◌∙◌, none,
  some, Text, lookup, lookup-insert, lookup-insert_self, same_iff, arith,
}
use adaptive_api_routing_gat.Flow.Batches.{
  Slice, Heap, items_of, allocate, copy, overwrite, Batch, zero_batch, batch_snapshot, BatchStore,
  save_batch, batch, queue_batch, cached_batch, snapshot_sequence,
}
use adaptive_api_routing_gat.Flow.Batches.Arrays.{
  IsIn, allocate-items, overwrite-items, overwrite-free,
}

-- What is held by the slices of a heap is held by them in a later one.
pub record Keeps (h h' : Heap) : Type 0 where
  pub kept : (s : Slice) → IsIn h s → items_of h' s ≡ items_of h s
  pub grown : h.free ≤ h'.free

Keeps-trans : {a b c : Heap} → Keeps a b → Keeps b c → Keeps a c
Keeps-trans p q = record {
  kept = λ s i. q.kept s (omega (arith, p.grown)) ∙ p.kept s i;
  grown = omega (arith, p.grown, q.grown);
}

pub copy-Keeps : (s : Slice) (h : Heap) → Keeps h (copy s h).0
unfolding copy allocate
copy-Keeps s h = record { kept = (allocate-items (items_of h s) h).1; grown = omega arith }

-- A copy holds what was copied, in an array of its own.
pub copy-items :
    (s : Slice) (h : Heap)
    → (items_of (copy s h).0 (copy s h).1 ≡ items_of h s)
      × ((copy s h).1.array ≡ h.free)
      × IsIn (copy s h).0 (copy s h).1
unfolding copy allocate
copy-items s h = ((allocate-items (items_of h s) h).0, refl, omega arith)

module _ (b : Batch) (s : BatchStore) where
  queue_batch-Keeps : Keeps s.heap (queue_batch b s).0.heap
  unfolding queue_batch save_batch batch_snapshot
  queue_batch-Keeps =
      let (h, c) = copy b.items s.heap in Keeps-trans (copy-Keeps b.items s.heap) (copy-Keeps c h)

  -- What is queued and what is stored for the tenant are copies, in arrays that were free.
  queue_batch-queued :
      (items_of (queue_batch b s).0.heap (queue_batch b s).1.items ≡ items_of s.heap b.items)
      × (s.heap.free ≤ (queue_batch b s).1.items.array)
      × IsIn (queue_batch b s).0.heap (queue_batch b s).1.items
      × ((queue_batch b s).1.tenant ≡ b.tenant)
  unfolding queue_batch save_batch batch_snapshot
  queue_batch-queued =
      let (h, c) = copy b.items s.heap in
      let (held, own, inside) = copy-items b.items s.heap in
      let later = copy-Keeps c h in
      (later.kept c inside ∙ held, omega (arith, own), omega (arith, inside, later.grown), refl)

  queue_batch-stored :
      (stored : Batch) × (lookup b.tenant (queue_batch b s).0.batches ≡ some stored)
      × (items_of (queue_batch b s).0.heap stored.items ≡ items_of s.heap b.items)
      × (s.heap.free ≤ stored.items.array)
      × IsIn (queue_batch b s).0.heap stored.items
  unfolding queue_batch save_batch batch_snapshot
  queue_batch-stored =
      let (h, c) = copy b.items s.heap in
      let (held, own, inside) = copy-items b.items s.heap in
      let (held', own', inside') = copy-items c h in
      let saved : Batch = record b { items = (copy c h).1 } in
      (
        saved,
        lookup-insert_self b.tenant saved s.batches,
        held' ∙ held,
        omega (arith, own', (copy-Keeps b.items s.heap).grown),
        inside',
      )

  queue_batch-other :
      (tenant : Text)
      → b.tenant ≢ tenant
      → lookup tenant (queue_batch b s).0.batches ≡ lookup tenant s.batches
  unfolding queue_batch save_batch batch_snapshot
  queue_batch-other tenant other =
      let saved : Batch = record b {
        items = (copy (copy b.items s.heap).1 (copy b.items s.heap).0).1;
      } in
      ground (arith, lookup-insert b.tenant tenant saved s.batches, same_iff b.tenant tenant)

abbrev batch_or_zero : Option Batch → Batch
batch_or_zero o = elim o [ some b ↦ b | none ↦ zero_batch ]

found_batch :
    (h : Heap) (xs : List Text) (o : Option Batch) {stored : Batch}
    → o ≡ some stored
    → items_of h stored.items ≡ xs
    → IsIn h stored.items
    → (items_of h (batch_or_zero o).items ≡ xs) × IsIn h (batch_or_zero o).items
found_batch h xs o e held i = rw e (held, i)

module _ (first second : Batch) (s : BatchStore) (inside : IsIn s.heap first.items) where
  -- The store after the first batch is queued, after its array is written to, and after the second
  -- batch is queued.
  abbrev after_first : BatchStore
  after_first = (queue_batch first s).0

  abbrev after_write : BatchStore
  after_write = record after_first {
    heap = (overwrite first.items (items_of after_first.heap second.items) after_first.heap).0;
  }

  abbrev after_second : BatchStore
  after_second = (queue_batch second after_write).0

  -- The copies that were made of the first batch are not touched by the write.
  copies_kept :
      (t : Slice)
      → IsIn after_first.heap t
      → s.heap.free ≤ t.array
      → (items_of after_second.heap t ≡ items_of after_first.heap t) × IsIn after_second.heap t
  copies_kept t i own =
      let xs = items_of after_first.heap second.items in
      let second_kept = queue_batch-Keeps second after_write in
      let grown = overwrite-free first.items xs after_first.heap in
      (
        second_kept.kept t (omega arith)
            ∙ (overwrite-items first.items xs after_first.heap).1 t i (omega (arith, inside)),
        omega (arith, second_kept.grown),
      )

  abbrev cached_at_end : Batch
  cached_at_end = batch_or_zero (lookup first.tenant after_second.batches)

  -- The batch of the first tenant in the store, with its items: the second batch, if it is of the
  -- same tenant. Its array has been allocated.
  cached-items :
      (items_of after_second.heap cached_at_end.items ≡ (
        if same second.tenant first.tenant
        then items_of after_write.heap second.items
        else items_of s.heap first.items))
      × IsIn after_second.heap cached_at_end.items
  cached-items = elim (Bool-cases (same second.tenant first.tenant)) [
    | inl hit ↦
        let (stored, found, held, _, i) = queue_batch-stored second after_write in
        let at_tenant : lookup first.tenant after_second.batches ≡ some stored =
          ap (λ t. lookup t after_second.batches)
            (sym ((same_iff second.tenant first.tenant).0 hit))
          ∙ found in
        rw hit (found_batch after_second.heap _ _ at_tenant held i)
    | inr miss ↦
        let (stored, found, held, own, i) = queue_batch-stored first s in
        let other : second.tenant ≢ first.tenant =
          λ p. ground (arith, same_iff second.tenant first.tenant) in
        let at_tenant : lookup first.tenant after_second.batches ≡ some stored =
          queue_batch-other second after_write first.tenant other ∙ found in
        let (kept, i') = copies_kept stored.items i own in
        rw miss (found_batch after_second.heap _ _ at_tenant (kept ∙ held) i')
  ]

  -- The batch that is queued first is returned with the items that it had, although its array is
  -- written to in between, and so is the batch that is cached for its tenant, unless the second
  -- batch is of the same tenant: then it is the second one's items that are cached.
  pub snapshot_sequence-isolated :
      (items_of (snapshot_sequence first second s).0.heap (snapshot_sequence first second s).1.items
        ≡ items_of s.heap first.items)
      × (items_of
            (snapshot_sequence first second s).0.heap
            (snapshot_sequence first second s).2.items
          ≡ (if same second.tenant first.tenant
              then items_of after_write.heap second.items
              else items_of s.heap first.items))
  unfolding snapshot_sequence cached_batch batch batch_snapshot
  snapshot_sequence-isolated =
      let (held, own, i, same_tenant) = queue_batch-queued first s in
      let queued = (queue_batch first s).1 in
      let (kept, i') = copies_kept queued.items i own in
      let (copied, _, copied_in) = copy-items queued.items after_second.heap in
      let returned = copy queued.items after_second.heap in
      (
        (copy-Keeps cached_at_end.items returned.0).kept returned.1 copied_in
            ∙ copied
            ∙ kept
            ∙ held,
        (copy-items cached_at_end.items returned.0).0
            ∙ (copy-Keeps queued.items after_second.heap).kept cached_at_end.items cached-items.1
            ∙ cached-items.0,
      )
