-- ===== src/Memory/Bounds.antt =====
-- The size estimate of an item, queue/memory.go (EstimateQueueDataSize, estimatePayloadSize), as an
-- int64.
use mpmc_queue.Prelude.{◌≤◌, none, some}
use mpmc_queue.Prelude.Int.{pos, ◌≤ℤ◌}
use mpmc_queue.Prelude.Int64.{max_int64}
use mpmc_queue.Payload.{
  Payload, nothing, string_of_length, bytes_of_length, basic, sizeable, reflected,
}
use mpmc_queue.Memory.{Layout}
use mpmc_queue.Memory.Walk.{IsValue, IsGraph}

-- What Go guarantees of a payload: its lengths and sizes are those of an `int`.
abbrev pub IsPayload : Payload → Type 0
IsPayload nothing = Unit
IsPayload (string_of_length n) = n ≤ max_int64
IsPayload (bytes_of_length n) = n ≤ max_int64
IsPayload (basic k) = Unit
IsPayload (sizeable none) = Unit
IsPayload (sizeable (some n)) = n ≤ℤ pos max_int64
IsPayload (reflected g v) = IsGraph g × IsValue v

pub record IsLayout (l : Layout) : Type 0 where
  pub data_fits : l.base_queue_data_size ≤ max_int64
  pub event_fits : l.base_queue_event_size ≤ max_int64
  pub int_fits : l.int_size ≤ max_int64
