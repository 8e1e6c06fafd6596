-- ===== src/ConsumerGroup/Members.antt =====
-- `ConsumerGroup.TryRead` (queue/consumer_group.go) as several members run it at once: the points between
-- its critical sections and atomic loads, and its step from each.
pub mod Advance
pub mod Invariant
pub mod Carried
pub mod Safety
use mpmc_queue.Prelude.{ℕ, ◌+◌, Bool, true, false, Option, none, some, ltb, if◌then◌else◌}
use mpmc_queue.Data.{QueueData}
use mpmc_queue.Chunk.{get}
use mpmc_queue.ChunkedList.{ChunkedList, get_first_element}
use mpmc_queue.Cursor.{Cursor, at_start, at, is_at, is_on, update_position}
use mpmc_queue.Schedule.{Delivery, Steps}

-- Where a member stands in `TryRead`. `e` and `i` are `currentElement` and `currentIndex`.
pub data Point : Type 0 where
  outside : Point
  entered : Point
  uninitialized : Point
  fetched : ℕ → Point
  looping : Point
  checking : ℕ → ℕ → Point
  resetting : ℕ → Point
  sizing : ℕ → ℕ → Point
  copying : ℕ → ℕ → Point
  holding : ℕ → ℕ → QueueData → Point
  missing : ℕ → ℕ → Point
  skipping : ℕ → ℕ → Point
  ended : ℕ → ℕ → Point
  linking : ℕ → ℕ → Option ℕ → Point

-- The next step of a member: where it stands then, the group's position, and what it returns.
unfoldable pub member_step : Bool → ChunkedList → Cursor → Point → Point × Cursor × Option Delivery
member_step closed cl cur outside = (if closed then outside else entered, cur, none)
member_step closed cl cur entered =
    (elim cur.chunk_element [ none ↦ uninitialized | some _ ↦ looping ], cur, none)
member_step closed cl cur uninitialized =
    (elim (get_first_element cl) [ none ↦ outside | some f ↦ fetched f ], cur, none)
member_step closed cl cur (fetched f) =
    (looping, elim cur.chunk_element [ none ↦ at f 0 | some _ ↦ cur ], none)
member_step closed cl cur looping =
    (elim cur.chunk_element [ none ↦ outside | some e ↦ checking e cur.index_in_chunk ], cur, none)
member_step closed cl cur (checking e i) =
    (if (cl.chunks e).pooled then resetting e else sizing e i, cur, none)
member_step closed cl cur (resetting e) = (outside, if is_on cur e then at_start else cur, none)
member_step closed cl cur (sizing e i) =
    (if ltb i (cl.chunks e).size then copying e i else ended e i, cur, none)
member_step closed cl cur (copying e i) =
    (elim (get (cl.chunks e) i) [ none ↦ missing e i | some d ↦ holding e i d ], cur, none)
member_step closed cl cur (holding e i d) =
    if is_at cur e i
    then (outside, at e (i + 1), some (record { element = e; index = i; item = d }))
    else (looping, cur, none)
member_step closed cl cur (missing e i) =
    (if ltb i (cl.chunks e).head then skipping e i else outside, cur, none)
member_step closed cl cur (skipping e i) =
    (looping, if is_at cur e i then at e (i + 1) else cur, none)
member_step closed cl cur (ended e i) = (linking e i (cl.chunks e).next_element, cur, none)
member_step closed cl cur (linking e i none) = (outside, cur, none)
member_step closed cl cur (linking e i (some f)) =
    (looping, if is_at cur e i then at f 0 else cur, none)

-- The steps that take the queue's lock for reading.
abbrev pub needs_lock : Point → Bool
needs_lock uninitialized = true
needs_lock (copying e i) = true
needs_lock _ = false

-- A group that has been closed is not moved.
abbrev pub member_steps : Steps Point
member_steps = record {
  step = member_step;
  needs_lock = needs_lock;
  moved = λ closed cl removed first infos cur.
      if closed then cur else update_position cl removed first infos cur;
}
