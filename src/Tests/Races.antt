-- ===== src/Tests/Races.antt =====
-- Schedules of queue/consumer_group.go and queue/consumer.go, run step by step.
use mpmc_queue.Prelude.{
  ℕ, ◌≡◌, refl, true, false, Option, none, some, List, [], ◌∷◌, ◌++◌, map, ◌==◌, if◌then◌else◌, ltb,
}
use mpmc_queue.Prelude.Int.{pos}
use mpmc_queue.Data.{QueueData}
use mpmc_queue.Chunk.{ChunkNode, new_chunk_node}
use mpmc_queue.ChunkedList.{ChunkedList, new_chunked_list}
use mpmc_queue.Memory.{new_memory_tracker}
use mpmc_queue.Cursor.{at_start, Cursor, at}
use mpmc_queue.ConsumerGroup.Members.{member_steps}
use mpmc_queue.Consumer.Callers.{caller_steps}
use mpmc_queue.Consumer.Callers.Safety.{unread_consumer}
use mpmc_queue.Schedule.{Steps, World, Action, step_call, post, remove, move, act}
use mpmc_queue.Schedule.Order.{source_of, Position}
use mpmc_queue.ConsumerGroup.Members.Safety.{unread_group}
use mpmc_queue.Tests.{item_of, layout64}

abbrev run : {P : Type 0} → Steps P → List Action → World P → Option (World P)
run s [] w = some w
run s (a ∷ rest) w = elim (act s a w) [ none ↦ none | some w' ↦ run s rest w' ]

-- A chunk with its first `n` indices taken.
abbrev held_chunk : ℕ → ChunkNode
held_chunk n = record new_chunk_node { items = λ i. item_of 1; size = n }

abbrev one_chunk : ℕ → ChunkedList
one_chunk n = record (new_chunked_list (new_memory_tracker layout64 (pos 1000000))) {
  chunks = λ e. if e == 0 then held_chunk n else new_chunk_node;
  allocated = 1;
  list = 0 ∷ [];
  total_items = pos n;
}

abbrev steps : ℕ → List Action
steps k = step_call k ∷ []

-- Member 1 fetches the front and rests; 2 and 3 copy the item; 3 returns it; the item expires and the
-- group is reset; 1 stores the old front; 2 returns the item again.
abbrev stale_front : List Action
stale_front =
    steps 1
    ++ steps 1
    ++ steps 1
    ++ (steps 2 ++ steps 2 ++ steps 2 ++ steps 2 ++ steps 2 ++ steps 2 ++ steps 2 ++ steps 2)
    ++ (steps 3 ++ steps 3 ++ steps 3 ++ steps 3 ++ steps 3 ++ steps 3 ++ steps 3)
    ++ (remove (pos 100) (pos 1) ∷ move ∷ [])
    ++ steps 1
    ++ steps 2

abbrev sources : {P : Type 0} → Option (World P) → List Position
sources none = []
sources (some w) = map source_of w.delivered

stale_front_returns_twice :
    sources (run member_steps stale_front (unread_group (one_chunk 1))) ≡ (0, 0) ∷ (0, 0) ∷ []
unfolding act mpmc_queue.ConsumerGroup.Members.member_step
    mpmc_queue.ChunkedList.remove_expired_data mpmc_queue.ChunkedList.expire_elements
    mpmc_queue.ChunkedList.stops_at mpmc_queue.ChunkedList.expire_chunk
    mpmc_queue.Chunk.remove_expired mpmc_queue.Chunk.expire_from mpmc_queue.Data.is_expired
    mpmc_queue.Prelude.Int.◌-ℤ◌ mpmc_queue.Chunk.get mpmc_queue.Cursor.update_position
stale_front_returns_twice = refl

-- The group stands at the last free index of a chunk. A member reads the size; a producer fills the chunk
-- and begins the next; the member reads the link, goes on, and index 999 is skipped.
abbrev late_link : List Action
late_link =
    steps 1
    ++ steps 1
    ++ steps 1
    ++ steps 1
    ++ steps 1
    ++ (post (item_of 2) ∷ post (item_of 3) ∷ [])
    ++ (steps 1 ++ steps 1 ++ steps 1 ++ steps 1 ++ steps 1 ++ steps 1 ++ steps 1)

late_link_skips :
    sources
      (run member_steps late_link (record (unread_group (one_chunk 999)) { cursor = at 0 999 }))
    ≡ (1, 0) ∷ []
unfolding act mpmc_queue.ConsumerGroup.Members.member_step mpmc_queue.Chunk.get
    mpmc_queue.ChunkedList.enqueue mpmc_queue.ChunkedList.place mpmc_queue.ChunkedList.last_chunk
    mpmc_queue.ChunkedList.add_to_chunk mpmc_queue.Chunk.add mpmc_queue.Memory.can_add_data
    new_chunked_list new_memory_tracker mpmc_queue.Prelude.Int64.sub64
    mpmc_queue.Prelude.Int64.wrap64 mpmc_queue.Prelude.Int.◌-ℤ◌ mpmc_queue.Memory.add_data
    mpmc_queue.Prelude.Int64.add64 mpmc_queue.Prelude.Int.◌+ℤ◌
late_link_skips = refl

-- Two goroutines read from a consumer that has no position yet. The first fetches the front and rests; the
-- second returns the item; the first stores the front, and returns the item again.
abbrev late_front : List Action
late_front =
    steps 1
    ++ steps 1
    ++ steps 1
    ++ (steps 2 ++ steps 2 ++ steps 2 ++ steps 2 ++ steps 2 ++ steps 2 ++ steps 2 ++ steps 2)
    ++ steps 2
    ++ (steps 1 ++ steps 1 ++ steps 1 ++ steps 1 ++ steps 1 ++ steps 1)

late_front_returns_twice :
    sources (run caller_steps late_front (unread_consumer (one_chunk 1) at_start))
    ≡ (0, 0) ∷ (0, 0) ∷ []
unfolding act mpmc_queue.Consumer.Callers.caller_step mpmc_queue.ConsumerGroup.Members.member_step
    mpmc_queue.Chunk.get
late_front_returns_twice = refl
