-- ===== src/Memory.antt =====
-- queue/memory.go: the tracker of the queue's memory. The sizes that the compiler fixes
-- (`unsafe.Sizeof`) are parameters, which the tracker carries. A compare-and-swap loop is its last,
-- successful round.
pub mod Estimate
pub mod Walk
pub mod Bounds
pub mod Totals
use mpmc_queue.Prelude.{ℕ, Bool, false, List, if◌then◌else◌, []}
use mpmc_queue.Prelude.Int.{ℤ, pos, ltb_ℤ, leb_ℤ}
use mpmc_queue.Prelude.Int64.{add64, sub64}
use mpmc_queue.Data.{QueueData}

-- `BaseQueueDataSize`, `BaseQueueEventSize`, `ChunkNodeSize` and the size of an `int`.
pub record Layout : Type 0 where
  pub base_queue_data_size : ℕ
  pub base_queue_event_size : ℕ
  pub chunk_node_size : ℕ
  pub int_size : ℕ

-- `size_cache` maps the identity of a type to its size, or to -1.
pub record MemoryTracker : Type 0 where
  pub total_memory : ℤ
  pub max_memory : ℤ
  pub size_cache : List (ℕ × ℤ)
  pub layout : Layout

abbrev pub max_queue_memory : ℤ
max_queue_memory = pos 1048576

unfoldable pub new_memory_tracker : Layout → ℤ → MemoryTracker
new_memory_tracker layout max_memory = record {
  total_memory = pos 0;
  max_memory = if leb_ℤ max_memory (pos 0) then max_queue_memory else max_memory;
  size_cache = [];
  layout = layout;
}

unfoldable pub can_add_data : MemoryTracker → QueueData → Bool
can_add_data mt d =
    if ltb_ℤ d.size (pos 0) then false else leb_ℤ mt.total_memory (sub64 mt.max_memory d.size)

unfoldable pub add_data : MemoryTracker → QueueData → MemoryTracker
add_data mt d =
    if ltb_ℤ (pos 0) d.size then record mt { total_memory = add64 mt.total_memory d.size } else mt

-- `current - size`, and 0 where that is negative.
abbrev pub sub_clamped : ℤ → ℤ → ℤ
sub_clamped current size = if ltb_ℤ (sub64 current size) (pos 0) then pos 0 else sub64 current size

unfoldable pub remove_data : MemoryTracker → QueueData → MemoryTracker
remove_data mt d =
    if leb_ℤ d.size (pos 0)
    then mt
    else record mt { total_memory = sub_clamped mt.total_memory d.size }

unfoldable pub add_chunk : MemoryTracker → MemoryTracker
add_chunk mt = record mt { total_memory = add64 mt.total_memory (pos mt.layout.chunk_node_size) }

unfoldable pub remove_chunk : MemoryTracker → MemoryTracker
remove_chunk mt = record mt {
  total_memory = sub_clamped mt.total_memory (pos mt.layout.chunk_node_size);
}
