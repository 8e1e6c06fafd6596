-- ===== src/Tests/Sizes.antt =====
-- The facts of the theorems on the size estimate, at small inputs.
use mpmc_queue.Prelude.{◌≡◌, refl, some}
use mpmc_queue.Prelude.Int.{pos}
use mpmc_queue.Prelude.Int64.{max_int64}
use mpmc_queue.Payload.{Value, struct, text, pointer, cons, nil, Graph, reflected}
use mpmc_queue.Data.{QueueData, zero_data}
use mpmc_queue.Memory.{MemoryTracker, Layout, new_memory_tracker}
use mpmc_queue.Memory.Estimate.{estimate_queue_data_size}

abbrev sizes : Layout
sizes = record {
  base_queue_data_size = 72;
  base_queue_event_size = 40;
  chunk_node_size = 32072;
  int_size = 8;
}

-- A node with a text as long as an int64 can count and a pointer back to itself.
abbrev node : Value
node =
    struct (record { identity = 1; size = 24 })
      (cons (text (record { identity = 2; size = 16 }) max_int64)
        (cons (pointer (record { identity = 3; size = 8 }) (some 0)) nil))

abbrev loop : Graph
loop = record { pointee = λ a. node; elements = λ a. nil }

abbrev cyclic : QueueData
cyclic = record zero_data { payload = reflected loop node }

abbrev fresh : MemoryTracker
fresh = new_memory_tracker sizes (pos 1000)

-- The text is counted once, and what comes on top of it saturates.
cyclic-saturates : (estimate_queue_data_size fresh cyclic).0 ≡ pos max_int64
unfolding estimate_queue_data_size new_memory_tracker mpmc_queue.Memory.Estimate.safe_add
    mpmc_queue.Memory.Estimate.estimate_payload_size mpmc_queue.Memory.Estimate.estimate_kind
    mpmc_queue.Memory.Estimate.estimate_value_size mpmc_queue.Memory.Estimate.sum_values
    mpmc_queue.Memory.Estimate.cached mpmc_queue.Prelude.Int64.sub64 mpmc_queue.Prelude.Int64.add64
    mpmc_queue.Prelude.Int64.wrap64 mpmc_queue.Prelude.Int.◌-ℤ◌ mpmc_queue.Prelude.Int.◌+ℤ◌
cyclic-saturates = refl
