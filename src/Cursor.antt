-- ===== src/Cursor.antt =====
-- A reader's position, `chunkElement` and `indexInChunk`, which `Consumer` (queue/consumer.go) and
-- `ConsumerGroup` (queue/consumer_group.go) both have, and what both do with it.
pub mod Unread
pub mod Look
pub mod Expiry
use mpmc_queue.Prelude.{
  ℕ, ◌+◌, ◌-◌, Bool, true, false, ◌&&◌, Option, none, some, List, [], ◌∷◌, ltb, leb, ◌==◌,
  if◌then◌else◌,
}
use mpmc_queue.Data.{QueueData}
use mpmc_queue.Chunk.{ChunkNode, get}
use mpmc_queue.ChunkedList.{ChunkedList, ChunkRemovalInfo}

pub record Cursor : Type 0 where
  pub chunk_element : Option ℕ
  pub index_in_chunk : ℕ

abbrev pub at_start : Cursor
at_start = record { chunk_element = none; index_in_chunk = 0 }

abbrev pub at : ℕ → ℕ → Cursor
at e i = record { chunk_element = some e; index_in_chunk = i }

-- What a round of `TryRead` finds at index `i` of element `e`, with no lock of the reader held:
-- a chunk that has left the list, an item, an index whose item has expired (with the chunk's head),
-- nothing at all, the end of a chunk that has a successor, or the end of the last chunk.
pub data Sight : Type 0 where
  pooled_chunk : Sight
  item : QueueData → Sight
  behind_head : ℕ → Sight
  no_item : Sight
  next_chunk : ℕ → Sight
  last_end : Sight

abbrev pub sight_in : ChunkNode → ℕ → Sight
sight_in c i = elim (get c i) [
  | some d ↦ item d
  | none ↦ if ltb i c.head then behind_head c.head else no_item
]

abbrev pub sight_at_end : ChunkNode → Sight
sight_at_end c = elim c.next_element [ some f ↦ next_chunk f | none ↦ last_end ]

unfoldable pub look : ChunkedList → ℕ → ℕ → Sight
look cl e i =
    let c = cl.chunks e in
    if c.pooled then pooled_chunk else if ltb i c.size then sight_in c i else sight_at_end c

-- The test `chunkElement == currentElement && indexInChunk == currentIndex`, under the reader's lock.
abbrev pub is_at : Cursor → ℕ → ℕ → Bool
is_at cur e i = elim cur.chunk_element [ none ↦ false | some f ↦ f == e && cur.index_in_chunk == i ]

abbrev pub is_on : Cursor → ℕ → Bool
is_on cur e = elim cur.chunk_element [ none ↦ false | some f ↦ f == e ]

abbrev pub count_removed : List ChunkRemovalInfo → ℕ
count_removed [] = 0
count_removed (info ∷ rest) = info.removed_count + count_removed rest

-- The removed items of its own chunk that a reader at index `i` had not read.
abbrev pub missed_in : ChunkRemovalInfo → ℕ → ℕ
missed_in info i =
    if ltb i info.new_head
    then if leb i info.old_head then info.removed_count else info.new_head - i
    else 0

-- The loop of `calculateExpiredCount` up to the reader's chunk, behind which everything counts.
abbrev pub count_missed : ℕ → ℕ → List ChunkRemovalInfo → ℕ
count_missed e i [] = 0
count_missed e i (info ∷ rest) = elim (info.element == e) [
  | true ↦ missed_in info i + count_removed rest
  | false ↦ count_missed e i rest
]

unfoldable pub calculate_expired_count : Cursor → List ChunkRemovalInfo → ℕ
calculate_expired_count cur infos = elim cur.chunk_element [
  | none ↦ count_removed infos
  | some e ↦ count_missed e cur.index_in_chunk infos
]

-- The index, raised to the new head of the reader's chunk.
abbrev pub raised_index : ℕ → ℕ → List ChunkRemovalInfo → ℕ
raised_index e i [] = i
raised_index e i (info ∷ rest) =
    if info.element == e
    then if ltb i info.new_head then info.new_head else i
    else raised_index e i rest

-- The part of `UpdatePositionAfterExpiration` that consumers and groups share; `first` is the front
-- of the list.
unfoldable pub update_position :
    ChunkedList → ℕ → Option ℕ → List ChunkRemovalInfo → Cursor → Cursor
update_position cl expired_count first infos cur = elim cur.chunk_element [
  | none ↦ cur
  | some e ↦ if expired_count == 0 then cur else elim first [
    | none ↦ at_start
    | some f ↦
        if (cl.chunks e).pooled then at f 0 else at e (raised_index e cur.index_in_chunk infos)
  ]
]
