-- ===== src/Chunk/Live.antt =====
-- The live items of a chunk, oldest first, and what `Add` and `Get` do to them.
use mpmc_queue.Prelude.{
  ℕ, suc, ◌+◌, ◌-◌, ◌≤◌, ◌<◌, ◌≡◌, some, none, List, [], ◌∷◌, ◌++◌, arith, update, cells, length,
  length-cells, cells-update_end, max, sym, subst,
}
use mpmc_queue.Data.{QueueData}
use mpmc_queue.Chunk.{ChunkNode, chunk_capacity, add}

-- The items that the chunk still holds.
abbrev pub live : ChunkNode → List QueueData
live c = cells c.items c.head (c.size - c.head)

-- Those at index `i` and later.
abbrev pub live_from : ChunkNode → ℕ → List QueueData
live_from c i = cells c.items (max i c.head) (c.size - max i c.head)

pub record IsChunk (c : ChunkNode) : Type 0 where
  pub in_order : c.head ≤ c.size
  pub within : c.size ≤ chunk_capacity

pub length-live : (c : ChunkNode) → length (live c) ≡ c.size - c.head
length-live c = length-cells c.items c.head (c.size - c.head)

-- The chunk that `Add` makes, where there is room.
abbrev pub added : ChunkNode → QueueData → ChunkNode
added c d = record c { items = update c.items c.size d; size = c.size + 1 }

pub add_room :
    (c : ChunkNode) (d : QueueData) → c.size < chunk_capacity → add c d ≡ some (added c d)
unfolding add
add_room c d h = ground arith

pub add_full : (c : ChunkNode) (d : QueueData) → chunk_capacity ≤ c.size → add c d ≡ none
unfolding add
add_full c d h = ground arith

pub cells_to_size :
    (c : ChunkNode) (d : QueueData) (i : ℕ)
    → i ≤ c.size
    → cells (update c.items c.size d) i (c.size + 1 - i) ≡ cells c.items i (c.size - i) ++ d ∷ []
cells_to_size c d i h =
    let n : c.size + 1 - i ≡ suc (c.size - i) = omega arith in
    let e : c.size ≡ i + (c.size - i) = omega arith in
    rw n (
      subst
        (λ k.
          cells (update c.items k d) i (suc (c.size - i)) ≡ cells c.items i (c.size - i) ++ d ∷ [])
        (sym e) (cells-update_end c.items i (c.size - i) d))

-- `Add` appends to what a reader at index `i` has before it.
pub live_from-added :
    (c : ChunkNode) (d : QueueData) (i : ℕ)
    → c.head ≤ c.size
    → i ≤ c.size
    → live_from (added c d) i ≡ live_from c i ++ d ∷ []
live_from-added c d i h k = cells_to_size c d (max i c.head) (omega arith)
