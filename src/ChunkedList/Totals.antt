-- ===== src/ChunkedList/Totals.antt =====
-- The counters of the list: `totalItems` is the number of items that it holds, and the tracker's
-- total is their sizes with that of each chunk. Both are exact: nothing wraps, nothing is clamped.
use Prim.Native.String.{String}
use mpmc_queue.Prelude.{
  ℕ, zero, suc, ◌+◌, ◌-◌, ◌*◌, ◌≤◌, ◌<◌, ◌≡◌, refl, ap, sym, ◌∙◌, ◌⊎◌, inl, inr, List, [], ◌∷◌,
  ◌++◌, arith, length, length-append,
}
use mpmc_queue.Prelude.Int.{pos}
use mpmc_queue.Prelude.Int64.{max_int64, add64-pos}
use mpmc_queue.Data.{QueueData}
use mpmc_queue.Chunk.{ChunkNode, chunk_capacity}
use mpmc_queue.Chunk.Live.{live, length-live}
use mpmc_queue.Memory.{MemoryTracker, add_chunk}
use mpmc_queue.Memory.Totals.{footprint, add_data-total, add_chunk-total, add_data_keeps}
use mpmc_queue.ChunkedList.{ChunkedList, last_chunk, place}
use mpmc_queue.ChunkedList.LastChunk.{IsOpen, last_chunk-IsOpen}
use mpmc_queue.ChunkedList.Enqueue.{Appends-stored, add_to_chunk-stored, stored, IsLinked-stored}
use mpmc_queue.ChunkedList.Links.{contents_of, IsLinked, contents}

-- The sizes of items, added up.
abbrev pub bytes : List QueueData → ℕ
bytes [] = 0
bytes (d ∷ ds) = footprint d + bytes ds

pub bytes-append : (xs ys : List QueueData) → bytes (xs ++ ys) ≡ bytes xs + bytes ys
bytes-append [] ys = omega arith
bytes-append (x ∷ xs) ys = omega (arith, bytes-append xs ys)

-- The memory that the list takes: its items and its chunks.
abbrev pub held : ChunkedList → ℕ → ℕ
held cl first =
    bytes (contents cl first) + (cl.allocated - first) * cl.memory_tracker.layout.chunk_node_size

-- `sized` is a fact of the layout: a chunk takes a byte for each item at least.
pub record IsCounted (cl : ChunkedList) (first : ℕ) : Type 0 where
  pub items : cl.total_items ≡ pos (length (contents cl first))
  pub memory : cl.memory_tracker.total_memory ≡ pos (held cl first)
  pub fits : held cl first ≤ max_int64
  pub sized : chunk_capacity ≤ cl.memory_tracker.layout.chunk_node_size

pub length-contents_of :
    (f : ℕ → ChunkNode) (e n : ℕ)
    → ((j : ℕ) → e ≤ j → j < e + n → (f j).size ≤ chunk_capacity)
    → length (contents_of f e n) ≤ n * chunk_capacity
length-contents_of f e zero h = omega arith
length-contents_of f e (suc n) h = omega (
  arith,
  length-append (live (f e)) (contents_of f (suc e) n),
  length-live (f e),
  h e (omega arith) (omega arith),
  length-contents_of f (suc e) n (λ j lo hi. h j (omega arith) (omega arith)),
)

-- A list of items that fits takes no more items than an int64 counts.
pub length-contents :
    (cl : ChunkedList) (first : ℕ)
    → IsLinked cl first
    → chunk_capacity ≤ cl.memory_tracker.layout.chunk_node_size
    → length (contents cl first) ≤ held cl first
length-contents cl first v h =
    let n = cl.allocated - first in
    let few =
      length-contents_of cl.chunks first n
        (λ j lo hi. (v.filled j lo (omega (arith, v.started))).within) in
    grind (arith, few)

-- What `last_chunk` does to the counters.
last_chunk-tracker :
    (cl : ChunkedList)
    → let cl' = (last_chunk cl).0 in
      (cl'.total_items ≡ cl.total_items)
      × (((cl'.memory_tracker ≡ cl.memory_tracker) × (cl'.allocated ≡ cl.allocated))
          ⊎ ((cl'.memory_tracker ≡ add_chunk cl.memory_tracker)
              × (cl'.allocated ≡ cl.allocated + 1)))
unfolding last_chunk
last_chunk-tracker cl = ground arith

-- The counters after a step that leaves room for what follows.
pub record Counts (cl cl' : ChunkedList) (first more : ℕ) : Type 0 where
  pub counted : IsCounted cl' first
  pub bounded : held cl' first ≤ held cl first + more
  pub layout_kept : cl'.memory_tracker.layout ≡ cl.memory_tracker.layout
  pub max_kept : cl'.memory_tracker.max_memory ≡ cl.memory_tracker.max_memory

module _ (cl : ChunkedList) (first : ℕ) (v : IsLinked cl first) (c : IsCounted cl first) where
  abbrev chunk_bytes : ℕ
  chunk_bytes = cl.memory_tracker.layout.chunk_node_size

  Counts-kept :
      (cl' : ChunkedList)
      → contents cl' first ≡ contents cl first
      → cl'.total_items ≡ cl.total_items
      → cl'.memory_tracker ≡ cl.memory_tracker
      → cl'.allocated ≡ cl.allocated
      → Counts cl cl' first chunk_bytes
  Counts-kept cl' all t m a =
      let h : held cl' first ≡ held cl first = rw (all, m, a) refl in
      record {
        counted = record {
          items = rw (t, all) c.items;
          memory = ap (λ (mt : MemoryTracker). mt.total_memory) m ∙ c.memory ∙ ap pos (sym h);
          fits = rw h c.fits;
          sized = rw m c.sized;
        };
        bounded = omega (arith, h);
        layout_kept = rw m;
        max_kept = rw m;
      }

  Counts-new :
      (cl' : ChunkedList)
      → held cl first + chunk_bytes ≤ max_int64
      → contents cl' first ≡ contents cl first
      → cl'.total_items ≡ cl.total_items
      → cl'.memory_tracker ≡ add_chunk cl.memory_tracker
      → cl'.allocated ≡ cl.allocated + 1
      → Counts cl cl' first chunk_bytes
  unfolding add_chunk
  Counts-new cl' room all t m a =
      let n : cl.allocated + 1 - first ≡ suc (cl.allocated - first) = omega (arith, v.started) in
      let h : held cl' first ≡ held cl first + chunk_bytes = rw (all, m, a, n) (omega arith) in
      let total = add_chunk-total cl.memory_tracker (held cl first) c.memory room in
      record {
        counted = record {
          items = rw (t, all) c.items;
          memory = ap (λ (mt : MemoryTracker). mt.total_memory) m ∙ total ∙ ap pos (sym h);
          fits = rw h room;
          sized = rw m c.sized;
        };
        bounded = omega (arith, h);
        layout_kept = rw m;
        max_kept = rw m;
      }

  last_chunk-Counts :
      held cl first + chunk_bytes ≤ max_int64 → Counts cl (last_chunk cl).0 first chunk_bytes
  last_chunk-Counts room =
      let all = (last_chunk-IsOpen cl first v).1.all in
      let (t, m) = last_chunk-tracker cl in
      elim m [
        | inl (m, a) ↦ Counts-kept (last_chunk cl).0 all t m a
        | inr (m, a) ↦ Counts-new (last_chunk cl).0 room all t m a
      ]

Counts-trans :
    (cl cl' cl'' : ChunkedList) (first m n : ℕ)
    → Counts cl cl' first m
    → Counts cl' cl'' first n
    → Counts cl cl'' first (m + n)
Counts-trans cl cl' cl'' first m n a b = record {
  counted = b.counted;
  bounded = omega (arith, a.bounded, b.bounded);
  layout_kept = b.layout_kept ∙ a.layout_kept;
  max_kept = b.max_kept ∙ a.max_kept;
}

module _ (cl : ChunkedList) (first e : ℕ) (d : QueueData) (o : IsOpen cl first e) where
  held-stored : held (stored cl e d) first ≡ held cl first + footprint d
  held-stored =
      rw ((Appends-stored cl first e d o).all, (add_data_keeps cl.memory_tracker d).0)
        (omega (arith, bytes-append (contents cl first) (d ∷ [])))

  Counts-stored :
      IsCounted cl first
      → held cl first + footprint d ≤ max_int64
      → Counts cl (stored cl e d) first (footprint d)
  Counts-stored c room =
      let keeps = add_data_keeps cl.memory_tracker d in
      let a = (Appends-stored cl first e d o).all in
      let sized : chunk_capacity ≤ (stored cl e d).memory_tracker.layout.chunk_node_size =
        rw (keeps.0) c.sized in
      let few = length-contents (stored cl e d) first (IsLinked-stored cl first e d o) sized in
      let grown : length (contents (stored cl e d) first) ≡ length (contents cl first) + 1 =
        ap length a ∙ length-append (contents cl first) (d ∷ []) in
      record {
        counted = record {
          items = rw c.items (
              add64-pos (length (contents cl first)) 1 (omega (arith, held-stored, few, grown))
              ∙ ap pos (sym grown));
          memory =
              add_data-total cl.memory_tracker (held cl first) c.memory d room
              ∙ ap pos (sym held-stored);
          fits = omega (arith, held-stored);
          sized = sized;
        };
        bounded = omega (arith, held-stored);
        layout_kept = keeps.0;
        max_kept = keeps.1;
      }

-- Where the counters of a linked list are exact and the total with a chunk and the item fits an
-- int64, placing an item keeps the counters exact, and what is held grows by the item and a chunk
-- at most.
pub place-Counts :
    (cl : ChunkedList) (first : ℕ) (d : QueueData) (message : String)
    → IsLinked cl first
    → IsCounted cl first
    → held cl first + (cl.memory_tracker.layout.chunk_node_size + footprint d) ≤ max_int64
    → Counts cl
        (place message cl d).0
        first
        (cl.memory_tracker.layout.chunk_node_size + footprint d)
unfolding place
place-Counts cl first d message v c room =
    let (cl', e) = last_chunk cl in
    let (o, same) = last_chunk-IsOpen cl first v in
    let step = last_chunk-Counts cl first v c (omega arith) in
    let more = Counts-stored cl' first e d o step.counted (omega (arith, step.bounded)) in
    rw (add_to_chunk-stored cl' first e d o message)
      (Counts-trans cl cl' (stored cl' e d) first _ _ step more)
