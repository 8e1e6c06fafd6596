-- ===== src/Consumer/Callers.antt =====
-- `Consumer.TryRead` (queue/consumer.go) of a consumer without a group, as several goroutines call it at
-- once: the points between its critical sections and atomic loads, and its step from each. What it
-- notes of an item, the history and the counters, is left out.
pub mod Advance
pub mod Carried
pub mod Safety
use mpmc_queue.Prelude.{ℕ, Bool, false, Option, none, ltb, if◌then◌else◌}
use mpmc_queue.ChunkedList.{ChunkedList}
use mpmc_queue.Cursor.{Cursor, at, is_at, update_position}
use mpmc_queue.ConsumerGroup.Members.{
  Point, outside, fetched, looping, missing, member_step, needs_lock,
}
use mpmc_queue.Schedule.{Delivery, Steps}

-- The points that a group's `TryRead` has, too, and the one before a consumer goes on to the head `h` that
-- it has read.
pub data ReadPoint : Type 0 where
  shared : Point → ReadPoint
  jumping : ℕ → ℕ → ℕ → ReadPoint

-- Other than in a group, the front of the list is stored without a second look at the position.
unfoldable pub caller_step :
    Bool → ChunkedList → Cursor → ReadPoint → ReadPoint × Cursor × Option Delivery
caller_step closed cl cur (shared (fetched f)) = (shared looping, at f 0, none)
caller_step closed cl cur (shared (missing e i)) =
    let h = (cl.chunks e).head in (if ltb i h then jumping e i h else shared outside, cur, none)
caller_step closed cl cur (shared p) =
    let (q, cur', out) = member_step closed cl cur p in (shared q, cur', out)
caller_step closed cl cur (jumping e i h) =
    (shared looping, if is_at cur e i then at e h else cur, none)

-- A consumer is moved whether it is closed or not.
abbrev pub caller_steps : Steps ReadPoint
caller_steps = record {
  step = caller_step;
  needs_lock = waits;
  moved = λ closed cl removed first infos cur. update_position cl removed first infos cur;
}
  where
    waits : ReadPoint → Bool
    waits (shared p) = needs_lock p
    waits (jumping e i h) = false
