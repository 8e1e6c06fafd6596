-- ===== src/Memory/Totals.antt =====
-- The tracker's arithmetic where nothing wraps and nothing is clamped.
use mpmc_queue.Prelude.{ℕ, ◌+◌, ◌-◌, ◌≤◌, ◌≡◌, true, arith}
use mpmc_queue.Prelude.Int.{pos, pos_part, ◌-ℤ◌}
use mpmc_queue.Prelude.Int64.{max_int64, add64-pos, sub64-pos}
use mpmc_queue.Data.{QueueData}
use mpmc_queue.Memory.{MemoryTracker, can_add_data, add_data, remove_data, add_chunk, remove_chunk}

-- The bytes that an item adds to the total: its size, and nothing for a negative one.
abbrev pub footprint : QueueData → ℕ
footprint d = pos_part d.size

module _ (mt : MemoryTracker) (t : ℕ) (held : mt.total_memory ≡ pos t) where
  pub add_data-total :
      (d : QueueData)
      → t + footprint d ≤ max_int64
      → (add_data mt d).total_memory ≡ pos (t + footprint d)
  unfolding add_data
  add_data-total d h = ground (arith, add64-pos t (footprint d))

  pub remove_data-total :
      (d : QueueData)
      → t ≤ max_int64
      → footprint d ≤ t
      → (remove_data mt d).total_memory ≡ pos (t - footprint d)
  unfolding remove_data ◌-ℤ◌
  remove_data-total d h k = ground (arith, sub64-pos t (footprint d))

  pub add_chunk-total :
      t + mt.layout.chunk_node_size ≤ max_int64
      → (add_chunk mt).total_memory ≡ pos (t + mt.layout.chunk_node_size)
  unfolding add_chunk
  add_chunk-total h = rw held (add64-pos t mt.layout.chunk_node_size h)

  pub remove_chunk-total :
      t ≤ max_int64
      → mt.layout.chunk_node_size ≤ t
      → (remove_chunk mt).total_memory ≡ pos (t - mt.layout.chunk_node_size)
  unfolding remove_chunk ◌-ℤ◌
  remove_chunk-total h k = ground (arith, sub64-pos t mt.layout.chunk_node_size)

  -- An item that is let in fits under the limit.
  pub can_add_data-le :
      (d : QueueData) (m : ℕ)
      → mt.max_memory ≡ pos m
      → m ≤ max_int64
      → footprint d ≤ max_int64
      → can_add_data mt d ≡ true
      → t + footprint d ≤ m
  unfolding can_add_data ◌-ℤ◌
  can_add_data-le d m e h k can = ground (arith, sub64-pos m (footprint d))

-- Items come and go without a change to the limit or the layout.
pub add_data_keeps :
    (mt : MemoryTracker) (d : QueueData)
    → ((add_data mt d).layout ≡ mt.layout) × ((add_data mt d).max_memory ≡ mt.max_memory)
unfolding add_data
add_data_keeps mt d = ground arith

pub remove_data_keeps :
    (mt : MemoryTracker) (d : QueueData)
    → ((remove_data mt d).layout ≡ mt.layout) × ((remove_data mt d).max_memory ≡ mt.max_memory)
unfolding remove_data
remove_data_keeps mt d = ground arith
