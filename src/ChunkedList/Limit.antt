-- ===== src/ChunkedList/Limit.antt =====
-- `Enqueue` of queue/chunked_list.go at the limit of memory: when it lets an item in, and what it
-- leaves behind where it does not.
use mpmc_queue.Prelude.{ℕ, ◌+◌, ◌≤◌, ◌<◌, ◌≡◌, refl, ◌⊎◌, true, false, none, some, arith}
use mpmc_queue.Prelude.Int.{pos, ◌≤ℤ◌, ◌<ℤ◌, ◌-ℤ◌}
use mpmc_queue.Prelude.Int64.{max_int64, sub64-pos}
use mpmc_queue.Data.{QueueData}
use mpmc_queue.Errors.{memory_limit}
use mpmc_queue.Memory.{MemoryTracker, can_add_data}
use mpmc_queue.Memory.Totals.{footprint}
use mpmc_queue.Memory.Estimate.{estimate_queue_data_size}
use mpmc_queue.ChunkedList.{ChunkedList, enqueue}
use mpmc_queue.ChunkedList.Links.{IsLinked}
use mpmc_queue.ChunkedList.Enqueue.{Appends, place-Appends}
use mpmc_queue.ChunkedList.Totals.{held, IsCounted, place-Counts}

-- `CanAddData` compares with the limit as on paper.
can_add_data_iff :
    (mt : MemoryTracker) (t m : ℕ) (d : QueueData)
    → mt.total_memory ≡ pos t
    → mt.max_memory ≡ pos m
    → m ≤ max_int64
    → footprint d ≤ max_int64
    → ((pos 0 ≤ℤ d.size) × (t + footprint d ≤ m) → can_add_data mt d ≡ true)
      × ((d.size <ℤ pos 0) ⊎ (m < t + footprint d) → can_add_data mt d ≡ false)
unfolding can_add_data ◌-ℤ◌
can_add_data_iff mt t m d e f h k = (
  λ (p, q). ground (arith, sub64-pos m (footprint d)),
  λ p. ground (arith, sub64-pos m (footprint d)),
)

module _ (cl : ChunkedList) (first m : ℕ) (d : QueueData) (v : IsLinked cl first)
    (c : IsCounted cl first) (limit : cl.memory_tracker.max_memory ≡ pos m)
    (small : m + cl.memory_tracker.layout.chunk_node_size ≤ max_int64)
    (int64 : footprint d ≤ max_int64) where
  -- With exact counters, a limit that with a chunk's size fits an int64, and an item whose size is
  -- not negative and fits under the limit with what is held, Enqueue succeeds, keeps the list
  -- linked and its counters exact, puts the item behind all others for every reader, and what is
  -- held exceeds the limit by at most the size of a chunk.
  pub enqueue_fits :
      pos 0 ≤ℤ d.size
      → held cl first + footprint d ≤ m
      → let (cl', failed) = enqueue cl d in
        (failed ≡ none)
        × IsLinked cl' first
        × Appends cl cl' first d
        × IsCounted cl' first
        × (held cl' first ≤ m + cl.memory_tracker.layout.chunk_node_size)
  unfolding enqueue
  enqueue_fits h k =
      let can =
        (can_add_data_iff cl.memory_tracker (held cl first) m d c.memory limit (omega arith)
            int64).0
          (h, k) in
      let (ok, v', a) = place-Appends cl first d "Failed to add data to chunk" v in
      let n = place-Counts cl first d "Failed to add data to chunk" v c (omega arith) in
      rw (can, enqueue) (ok, v', a, n.counted, omega (arith, n.bounded))

  -- With exact counters and a limit that with a chunk's size fits an int64, an item whose size is
  -- negative or does not fit under the limit with what is held is refused with what is held, the
  -- limit and the estimate of its size, and the list is as it was but for the cache of sizes.
  pub enqueue_refused :
      (d.size <ℤ pos 0) ⊎ (m < held cl first + footprint d)
      → let (needed, mt) = estimate_queue_data_size cl.memory_tracker d in
        enqueue cl d ≡ (
          record cl { memory_tracker = mt },
          some (memory_limit (pos (held cl first)) (pos m) needed),
        )
  unfolding enqueue
  enqueue_refused h =
      let can =
        (can_add_data_iff cl.memory_tracker (held cl first) m d c.memory limit (omega arith)
            int64).1
          h in
      rw (can, enqueue) (rw (c.memory, limit) refl)
