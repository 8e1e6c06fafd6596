-- ===== src/Queue/Enqueue.antt =====
-- `TryEnqueue` of queue/queue.go: when an item is let in, what each kind of refusal leaves behind, and
-- what the readers see.
use Prim.Native.String.{String}
use mpmc_queue.Prelude.{
  ℕ, ◌≡◌, refl, ap, sym, subst, ◌∙◌, ◌⊎◌, inl, inr, true, false, Option, none, some, List, [], ◌∷◌,
  arith, length, append-nil, leb, Bool-cases, ◌&&◌, otherwise,
}
use mpmc_queue.Prelude.Int.{ℤ, pos, ltb_ℤ, leb_ℤ}
use mpmc_queue.Prelude.Int64.{max_int64, add64, sub64}
use mpmc_queue.Payload.{Payload}
use mpmc_queue.Data.{QueueData, new_queue_data}
use mpmc_queue.Errors.{Error, queue_closed, queue_full, batch_overflow, memory_limit}
use mpmc_queue.ChunkedList
use mpmc_queue.ChunkedList.{ChunkedList}
use mpmc_queue.ChunkedList.Links.{IsLinked}
use mpmc_queue.ChunkedList.Enqueue.{Appends, place-Appends, AppendsAll, enqueue_batch-AppendsAll}
use mpmc_queue.Memory.{MemoryTracker, can_add_data}
use mpmc_queue.Memory.Estimate.{estimate_queue_data_size, estimate_queue_data_size_keeps}
use mpmc_queue.Queue.{
  Queue, make_batch, new_sized_data, notify_waiting_consumers, over_max_items, tracker,
  with_tracker, try_enqueue, end_enqueue, try_enqueue_batch, store_batch, Batch,
}

-- The list with another tracker: the links and the contents are those of the old list.
pub IsLinked-tracker :
    (cl : ChunkedList) (first : ℕ) (mt : MemoryTracker)
    → IsLinked cl first
    → IsLinked (record cl { memory_tracker = mt }) first
IsLinked-tracker cl first mt v = record {
  started = v.started;
  in_list = v.in_list;
  filled = v.filled;
  retired = v.retired;
}

abbrev pub payloads : List QueueData → List Payload
payloads [] = []
payloads (d ∷ ds) = d.payload ∷ payloads ds

pub payload-new_sized_data :
    (now : ℤ) (sequence : ℕ) (p : Payload) (name : String) (mt : MemoryTracker)
    → let (sequence', d, mt') = new_sized_data now sequence p name mt in d.payload ≡ p
unfolding new_sized_data new_queue_data
payload-new_sized_data now sequence p name mt = refl

-- The tracker with what its cache may hold after estimates; its totals and its limit are the same.
abbrev pub Cached : MemoryTracker → MemoryTracker → Type 0
Cached mt mt' = mt' ≡ record mt { size_cache = mt'.size_cache }

Cached-trans : (a b c : MemoryTracker) → Cached a b → Cached b c → Cached a c
Cached-trans a b c h k = k ∙ ap (λ (m : MemoryTracker). record m { size_cache = c.size_cache }) h

pub new_sized_data-Cached :
    (now : ℤ) (sequence : ℕ) (p : Payload) (name : String) (mt : MemoryTracker)
    → Cached mt (new_sized_data now sequence p name mt).2
unfolding new_sized_data
new_sized_data-Cached now sequence p name mt =
    estimate_queue_data_size_keeps mt (new_queue_data now sequence p name).1

-- So it is after the loop over a batch, however far that got.
make_batch-Cached :
    (now : ℤ) (name : String) (total : ℤ) (sequence : ℕ) (mt : MemoryTracker) (ps : List Payload)
    → Cached mt (make_batch now name total sequence mt ps).memory_tracker
unfolding make_batch
make_batch-Cached now name total sequence mt [] = refl
make_batch-Cached now name total sequence mt (p ∷ ps) =
    let (sequence', d, mt') = new_sized_data now sequence p name mt in
    let one = new_sized_data-Cached now sequence p name mt in
    elim (Bool-cases (ltb_ℤ (sub64 (pos max_int64) total) d.size)) [
      | inl over ↦ rw (over, make_batch) one
      | inr fits ↦
          rw (fits, make_batch)
            (Cached-trans mt mt' _ one
              (make_batch-Cached now name (add64 total d.size) sequence' mt' ps))
    ]

-- The queue as it was, but for the cache of sizes.
abbrev pub Recached : Queue → Queue → Type 0
Recached q q' =
    (cache : List (ℕ × ℤ)) × (q' ≡ with_tracker q (record (tracker q) { size_cache = cache }))

Recached-tracker :
    (q : Queue) (mt : MemoryTracker) → Cached (tracker q) mt → Recached q (with_tracker q mt)
Recached-tracker q mt h = (mt.size_cache, ap (with_tracker q) h)

-- A batch that does not overflow has an item for each payload.
pub payloads-make_batch :
    (now : ℤ) (name : String) (total : ℤ) (sequence : ℕ) (mt : MemoryTracker) (ps : List Payload)
    → (make_batch now name total sequence mt ps).overflow ≡ false
    → payloads (make_batch now name total sequence mt ps).made ≡ ps
unfolding make_batch
payloads-make_batch now name total sequence mt [] h = refl
payloads-make_batch now name total sequence mt (p ∷ ps) h =
    let (sequence', d, mt') = new_sized_data now sequence p name mt in
    elim (Bool-cases (ltb_ℤ (sub64 (pos max_int64) total) d.size)) [
      | inl over ↦ absurd (ground (arith, over, h))
      | inr fits ↦
          rw (fits, make_batch)
            (rw (payload-new_sized_data now sequence p name mt) (
              ap (λ qs. p ∷ qs)
                (payloads-make_batch now name (add64 total d.size) sequence' mt' ps
                  (rw fits at h))))
    ]

-- What a batch does to the items of a queue: all of its items go in, or none.
abbrev pub AllOrNothing : Queue → ℕ → List Payload → Queue × Option Error → Type 0
AllOrNothing q first ps (q', failed) =
    ((failed ≡ none)
      × IsLinked q'.items first
      × ((ds : List QueueData) × (payloads ds ≡ ps) × AppendsAll q.items q'.items first ds))
    ⊎ ((e : Error) × (failed ≡ some e) × Recached q q')

pub notify_waiting_consumers-items : (q : Queue) → (notify_waiting_consumers q).items ≡ q.items
unfolding notify_waiting_consumers
notify_waiting_consumers-items q = ground arith

-- The queue with the items of a batch that has passed every guard.
abbrev accepted : Queue → MemoryTracker → List QueueData → Queue
accepted q mt ds =
    let q' = with_tracker q mt in
    notify_waiting_consumers (record q' { items = (ChunkedList.enqueue_batch q'.items ds).0 })

accepted-AllOrNothing :
    (q : Queue) (first : ℕ) (ps : List Payload) (mt : MemoryTracker) (ds : List QueueData)
    → IsLinked q.items first
    → payloads ds ≡ ps
    → AllOrNothing q first ps (accepted q mt ds, none)
accepted-AllOrNothing q first ps mt ds v h =
    let (ok, v', a) =
      enqueue_batch-AppendsAll ds (record q.items { memory_tracker = mt }) first
        (IsLinked-tracker q.items first mt v) in
    rw
      (notify_waiting_consumers-items (record (with_tracker q mt) {
        items = (ChunkedList.enqueue_batch (record q.items { memory_tracker = mt }) ds).0;
      }))
      (inl (refl, v', (ds, h, record { all = a.all; ahead = a.ahead; grown = a.grown })))

pub no_payloads : (ps : List Payload) → leb (length ps) 0 ≡ true → [] ≡ ps
no_payloads [] h = refl
no_payloads (p ∷ ps) h = absurd (ground (arith, h))

module _ (now : ℤ) (sequence : ℕ) (q : Queue) (first : ℕ) (v : IsLinked q.items first) where
  -- The two guards behind the making of the items.
  made-AllOrNothing :
      (ps : List Payload) (b : Batch)
      → (b.overflow ≡ false → payloads b.made ≡ ps)
      → Cached (tracker q) b.memory_tracker
      → let (sequence', q', failed) = store_batch q b in AllOrNothing q first ps (q', failed)
  unfolding store_batch
  made-AllOrNothing ps b h cached = elim (Bool-cases b.overflow) [
    | inl over ↦
        rw (over, store_batch)
          (inr (batch_overflow, refl, Recached-tracker q b.memory_tracker cached))
    | inr fits ↦
        let mt = b.memory_tracker in
        let (ok, v', a) =
          enqueue_batch-AppendsAll b.made (record q.items { memory_tracker = mt }) first
            (IsLinked-tracker q.items first mt v) in
        elim (Bool-cases (ltb_ℤ (sub64 mt.max_memory mt.total_memory) b.total_size)) [
          | inl much ↦
              rw (fits, much, store_batch)
                (inr (
                  memory_limit mt.total_memory mt.max_memory b.total_size,
                  refl,
                  Recached-tracker q b.memory_tracker cached,
                ))
          | inr room ↦
              rw (fits, room, ok, store_batch)
                (accepted-AllOrNothing q first ps mt b.made v (h fits))
        ]
  ]

  passed :
      (ps : List Payload)
      → q.closed ≡ false
      → leb (length ps) 0 ≡ false
      → over_max_items q (length ps) ≡ false
      → try_enqueue_batch now sequence q ps
        ≡ store_batch q (make_batch now q.name (pos 0) sequence (tracker q) ps)
  unfolding try_enqueue_batch
  passed ps h k l = simp (h, k, l)

  -- On a queue with a linked list, TryEnqueueBatch puts an item for each payload behind all
  -- others, in order, for every reader, or returns an error and leaves the queue as it was but for
  -- the tracker's cache of sizes.
  pub try_enqueue_batch-AllOrNothing :
      (ps : List Payload)
      → let (sequence', q', failed) = try_enqueue_batch now sequence q ps in
        AllOrNothing q first ps (q', failed)
  unfolding try_enqueue_batch
  try_enqueue_batch-AllOrNothing ps = elim (Bool-cases q.closed) [
    | inl shut ↦ rw (shut, try_enqueue_batch) (inr (queue_closed "enqueue batch", refl, (_, refl)))
    | inr open_ ↦ elim (Bool-cases (leb (length ps) 0)) [
      | inl few ↦
          rw (open_, few, try_enqueue_batch)
            (inl (
              refl,
              v,
              (
                [],
                no_payloads ps few,
                record {
                  all = sym (append-nil _);
                  ahead = λ e i lo hi le. (le, sym (append-nil _));
                  grown = omega arith;
                },
              ),
            ))
      | inr some_in ↦ elim (Bool-cases (over_max_items q (length ps))) [
        | inl over ↦
            rw (open_, some_in, over, try_enqueue_batch)
              (inr (queue_full q.max_items, refl, (_, refl)))
        | inr under ↦ rw (passed ps open_ some_in under) (
            made-AllOrNothing ps (make_batch now q.name (pos 0) sequence (tracker q) ps)
              (payloads-make_batch now q.name (pos 0) sequence (tracker q) ps)
              (make_batch-Cached now q.name (pos 0) sequence (tracker q) ps))
      ]
    ]
  ]

-- What a single `TryEnqueue` does: the item goes in behind the others, or an error comes back.
abbrev pub OneOrNone : Queue → ℕ → Payload → Queue × Option Error → Type 0
OneOrNone q first p (q', failed) =
    ((failed ≡ none)
      × IsLinked q'.items first
      × ((d : QueueData) × (d.payload ≡ p) × Appends q.items q'.items first d))
    ⊎ ((e : Error) × (failed ≡ some e) × Recached q q')

module _ (now : ℤ) (sequence : ℕ) (q : Queue) (first : ℕ) (v : IsLinked q.items first) where
  one_in :
      (items : ChunkedList) (d : QueueData)
      → IsLinked items first
      → Appends q.items items first d
      → OneOrNone q first d.payload (end_enqueue q (items, none))
  unfolding end_enqueue
  one_in items d v' a =
      rw (notify_waiting_consumers-items (record q { items = items }))
        (inl (refl, v', (d, refl, a)))

  -- The part of `TryEnqueue` behind the test of `MaxItems`.
  end_enqueue-OneOrNone :
      (mt : MemoryTracker) (d : QueueData)
      → Cached (tracker q) mt
      → OneOrNone q first d.payload (
          end_enqueue
            (with_tracker q mt)
            (ChunkedList.enqueue (record q.items { memory_tracker = mt }) d))
  unfolding ChunkedList.enqueue end_enqueue
  end_enqueue-OneOrNone mt d cached =
      let cl = record q.items { memory_tracker = mt } in
      let put = ChunkedList.place "Failed to add data to chunk" cl d in
      elim (Bool-cases (can_add_data mt d)) [
        | inl can ↦
            let (ok, v', a) =
              place-Appends cl first d "Failed to add data to chunk"
                (IsLinked-tracker q.items first mt v) in
            let taken : ChunkedList.enqueue cl d ≡ put = simp can in
            let e : ChunkedList.enqueue cl d ≡ (put.0, none) = taken ∙ ap (λ f. (put.0, f)) ok in
            subst (λ r. OneOrNone q first d.payload (end_enqueue (with_tracker q mt) r)) (sym e)
              (one_in put.0 d v' (record { all = a.all; ahead = a.ahead; grown = a.grown }))
        | inr cannot ↦
            let mt' = (estimate_queue_data_size mt d).1 in
            rw (cannot, ChunkedList.enqueue)
              (inr (
                _,
                refl,
                Recached-tracker q mt'
                    (Cached-trans (tracker q) mt mt' cached (estimate_queue_data_size_keeps mt d)),
              ))
      ]

  -- On a queue with a linked list, TryEnqueue puts an item with the payload behind all others, for
  -- every reader, or returns an error and leaves the queue as it was but for the tracker's cache
  -- of sizes.
  pub try_enqueue-OneOrNone :
      (p : Payload)
      → let (sequence', q', failed) = try_enqueue now sequence q p in
        OneOrNone q first p (q', failed)
  unfolding try_enqueue
  try_enqueue-OneOrNone p =
      let (sequence', d, mt) = new_sized_data now sequence p q.name (tracker q) in
      let cached = new_sized_data-Cached now sequence p q.name (tracker q) in
      elim (Bool-cases q.closed) [
        | inl shut ↦ rw (shut, try_enqueue) (inr (queue_closed "enqueue", refl, (_, refl)))
        | inr open_ ↦
            elim (Bool-cases (ltb_ℤ (pos 0) q.max_items && leb_ℤ q.max_items q.items.total_items)) [
              | inl full ↦
                  let e : try_enqueue now sequence q p
                      ≡ (sequence', with_tracker q mt, some (queue_full q.max_items)) =
                    simp (open_, full) in
                  rw e (inr (queue_full q.max_items, refl, Recached-tracker q mt cached))
              | inr room ↦
                  let done =
                    end_enqueue (with_tracker q mt)
                      (ChunkedList.enqueue (with_tracker q mt).items d) in
                  let e : try_enqueue now sequence q p ≡ (sequence', done.0, done.1) =
                    otherwise _ _ open_ ∙ otherwise _ _ room in
                  rw e (
                    subst (λ x. OneOrNone q first x done)
                      (payload-new_sized_data now sequence p q.name (tracker q))
                      (end_enqueue-OneOrNone mt d cached))
            ]
      ]
