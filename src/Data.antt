-- ===== src/Data.antt =====
-- queue/data.go: events and queue items. An instant or a duration is its number of nanoseconds.
use Prim.Native.String.{String}
use mpmc_queue.Prelude.{ℕ, ◌+◌, ◌%◌, ◌^◌, Bool}
use mpmc_queue.Prelude.Int.{ℤ, pos, ◌-ℤ◌, ltb_ℤ}
use mpmc_queue.Payload.{Payload, nothing}

pub record QueueEvent : Type 0 where
  pub timestamp : ℤ
  pub queue_name : String
  pub event_type : String

pub record QueueData : Type 0 where
  pub id : ℕ
  pub payload : Payload
  pub enqueue_event : QueueEvent
  pub created : ℤ
  pub size : ℤ

-- The zero value `QueueData{}`.
abbrev pub zero_data : QueueData
zero_data = record {
  id = 0;
  payload = nothing;
  enqueue_event = record { timestamp = pos 0; queue_name = ""; event_type = "" };
  created = pos 0;
  size = pos 0;
}

-- `now` is the reading of the clock, and `sequence` the package's counter `dataIDSequence`; the
-- result holds the counter after the call.
unfoldable pub new_queue_data : ℤ → ℕ → Payload → String → ℕ × QueueData
new_queue_data now sequence payload queue_name =
    let id = (sequence + 1) % 2 ^ 64 in
    (
      id,
      record {
        id = id;
        payload = payload;
        enqueue_event = record { timestamp = now; queue_name = queue_name; event_type = "enqueue" };
        created = now;
        size = pos 0;
      },
    )

abbrev pub set_size : ℤ → QueueData → QueueData
set_size size d = record d { size = size }

-- `time.Since(created) > ttl`, the clock at `now`.
unfoldable pub is_expired : ℤ → ℤ → QueueData → Bool
is_expired now ttl d = ltb_ℤ ttl (now -ℤ d.created)
