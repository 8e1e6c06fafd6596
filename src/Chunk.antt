-- ===== src/Chunk.antt =====
-- queue/data.go and queue/pool.go: one chunk of the list. The array `Data` is a function from an
-- index; only the cells from `head` to `size` are read. Each call runs under the chunk's mutex.
pub mod Live
pub mod Expire
use mpmc_queue.Prelude.{
  ℕ, zero, suc, ◌+◌, ◌-◌, Bool, true, false, ◌||◌, Option, none, some, List, [], ◌∷◌, ltb, leb,
  ◌==◌, if◌then◌else◌, update,
}
use mpmc_queue.Prelude.Int.{ℤ}
use mpmc_queue.Data.{QueueData, zero_data, is_expired}

-- `next_element` is the list element that holds the next chunk.
pub record ChunkNode : Type 0 where
  pub items : ℕ → QueueData
  pub size : ℕ
  pub head : ℕ
  pub next_element : Option ℕ
  pub pooled : Bool

-- The length of the array `Data`.
abbrev pub chunk_capacity : ℕ
chunk_capacity = 1000

-- `NewChunkNode`, which is `GetChunkNode`.
abbrev pub new_chunk_node : ChunkNode
new_chunk_node = record {
  items = λ _. zero_data;
  size = 0;
  head = 0;
  next_element = none;
  pooled = false;
}

abbrev pub put_chunk_node : ChunkNode → ChunkNode
put_chunk_node c = record c { pooled = true }

abbrev pub is_full : ChunkNode → Bool
is_full c = leb chunk_capacity c.size

abbrev pub is_empty : ChunkNode → Bool
is_empty c = c.head == c.size

-- `none` for the `false` of a full chunk. The increment is behind the guard, so it cannot wrap.
unfoldable pub add : ChunkNode → QueueData → Option ChunkNode
add c d =
    if leb chunk_capacity c.size
    then none
    else some (record c { items = update c.items c.size d; size = c.size + 1 })

unfoldable pub get : ChunkNode → ℕ → Option QueueData
get c i = if ltb i c.head || leb c.size i then none else some (c.items i)

-- The loop of `RemoveExpired` with `n` indices left, from index `i`. `clock i` is the reading that
-- `IsExpired` makes at index `i`.
unfoldable pub expire_from : (ℕ → ℤ) → ℤ → ℕ → ℕ → ChunkNode → ChunkNode × List QueueData
expire_from clock ttl zero i c = (c, [])
expire_from clock ttl (suc n) i c = elim (is_expired (clock i) ttl (c.items i)) [
  | false ↦ (c, [])
  | true ↦
      let dropped = record c { items = update c.items i zero_data; head = c.head + 1 } in
      let (c', rest) = expire_from clock ttl n (suc i) dropped in (c', c.items i ∷ rest)
]

-- The chunk with its expired items gone, and those items. Their number is `removed`.
unfoldable pub remove_expired : (ℕ → ℤ) → ℤ → ChunkNode → ChunkNode × List QueueData
remove_expired clock ttl c = expire_from clock ttl (c.size - c.head) c.head c

unfoldable pub get_earliest_expiry : ChunkNode → Option ℤ
get_earliest_expiry c = if c.head == c.size then none else some (c.items c.head).created
