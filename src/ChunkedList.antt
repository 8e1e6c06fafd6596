-- ===== src/ChunkedList.antt =====
-- queue/chunked_list.go: the list of chunks. An element of `container/list` is a number, given out in
-- order, and holds the chunk of that number for good; a removed element keeps its chunk, as a reader
-- may still hold a pointer to it. The operations run under the queue's mutex.
pub mod Links
pub mod LastChunk
pub mod Enqueue
pub mod Totals
pub mod Limit
pub mod Count
pub mod Removal
pub mod Released
pub mod Cleared
use Prim.Native.String.{String}
use mpmc_queue.Prelude.{
  ℕ, zero, suc, ◌+◌, ◌-◌, Bool, true, false, ◌&&◌, Option, none, some, List, [], ◌∷◌, ◌++◌, ◌==◌,
  if◌then◌else◌, update, length, head?,
}
use mpmc_queue.Prelude.Int.{ℤ, pos, negsuc, ◌-ℤ◌, leb_ℤ}
use mpmc_queue.Prelude.Int64.{add64}
use mpmc_queue.Data.{QueueData, zero_data}
use mpmc_queue.Errors.{Error, memory_limit, queue_error}
use mpmc_queue.Chunk.{
  ChunkNode, new_chunk_node, put_chunk_node, is_full, is_empty, add, get, remove_expired,
  get_earliest_expiry,
}
use mpmc_queue.Memory.{MemoryTracker, can_add_data, add_data, remove_data, add_chunk, remove_chunk}
use mpmc_queue.Memory.Estimate.{estimate_queue_data_size}

-- `list` holds the elements from front to back.
pub record ChunkedList : Type 0 where
  pub chunks : ℕ → ChunkNode
  pub allocated : ℕ
  pub list : List ℕ
  pub memory_tracker : MemoryTracker
  pub total_items : ℤ

unfoldable pub new_chunked_list : MemoryTracker → ChunkedList
new_chunked_list mt = record {
  chunks = λ _. new_chunk_node;
  allocated = 0;
  list = [];
  memory_tracker = mt;
  total_items = pos 0;
}

abbrev pub get_first_element : ChunkedList → Option ℕ
get_first_element cl = head? cl.list

abbrev pub last? : List ℕ → Option ℕ
last? [] = none
last? (e ∷ []) = some e
last? (e ∷ f ∷ es) = last? (f ∷ es)

abbrev pub get_last_element : ChunkedList → Option ℕ
get_last_element cl = last? cl.list

abbrev pub is_empty_list : ChunkedList → Bool
is_empty_list cl = leb_ℤ cl.total_items (pos 0) && leb_ℤ (pos 0) cl.total_items

-- `PushBack` of a new chunk, and the tracker's note of it. The element is `allocated`.
abbrev pub push_back : ChunkedList → ChunkedList
push_back cl = record cl {
  chunks = update cl.chunks cl.allocated new_chunk_node;
  allocated = cl.allocated + 1;
  list = cl.list ++ cl.allocated ∷ [];
  memory_tracker = add_chunk cl.memory_tracker;
}

-- `NextElement.Store`
abbrev pub link_next : ChunkedList → ℕ → ℕ → ChunkedList
link_next cl e f = record cl {
  chunks = update cl.chunks e (record (cl.chunks e) { next_element = some f });
}

-- The element whose chunk takes the next item; a new one if there is none or it is full.
unfoldable pub last_chunk : ChunkedList → ChunkedList × ℕ
last_chunk cl = elim (get_last_element cl) [
  | none ↦ (push_back cl, cl.allocated)
  | some e ↦
      if is_full (cl.chunks e)
      then (link_next (push_back cl) e cl.allocated, cl.allocated)
      else (cl, e)
]

-- The item goes into the chunk, and is counted; `message` is for a chunk that refuses it.
unfoldable pub add_to_chunk : String → ChunkedList → ℕ → QueueData → ChunkedList × Option Error
add_to_chunk message cl e d = elim (add (cl.chunks e) d) [
  | none ↦ (cl, some (queue_error message))
  | some c ↦ (
    record cl {
      chunks = update cl.chunks e c;
      memory_tracker = add_data cl.memory_tracker d;
      total_items = add64 cl.total_items (pos 1);
    },
    none,
  )
]

-- The part that `Enqueue` and each round of `EnqueueBatch` share.
unfoldable pub place : String → ChunkedList → QueueData → ChunkedList × Option Error
place message cl d = let (cl', e) = last_chunk cl in add_to_chunk message cl' e d

unfoldable pub enqueue : ChunkedList → QueueData → ChunkedList × Option Error
enqueue cl d =
    let mt = cl.memory_tracker in
    let (needed, mt') = estimate_queue_data_size mt d in
    if can_add_data mt d then place "Failed to add data to chunk" cl d else (
      record cl { memory_tracker = mt' },
      some (memory_limit mt.total_memory mt.max_memory needed),
    )

unfoldable pub enqueue_batch : ChunkedList → List QueueData → ChunkedList × Option Error
enqueue_batch cl [] = (cl, none)
enqueue_batch cl (d ∷ ds) =
    let (cl', failed) = place "Failed to add data to chunk during batch" cl d in
    elim failed [ none ↦ enqueue_batch cl' ds | some e ↦ (cl', some e) ]

-- The readings that `RemoveExpiredData` makes of the clock: at an index of an element's chunk, and
-- where it decides whether to stop at an element.
pub record Clock : Type 0 where
  pub at_index : ℕ → ℕ → ℤ
  pub at_stop : ℕ → ℤ

-- A clock that does not move during the call.
abbrev pub instant : ℤ → Clock
instant now = record { at_index = λ _ _. now; at_stop = λ _. now }

pub record ChunkRemovalInfo : Type 0 where
  pub element : ℕ
  pub removed_count : ℕ
  pub old_head : ℕ
  pub new_head : ℕ

-- The removed items leave the tracker and the counter, one after the other. The two updates of a
-- round do not touch one another, so each is a fold of its own.
unfoldable pub remove_all : List QueueData → MemoryTracker → MemoryTracker
remove_all [] mt = mt
remove_all (d ∷ ds) mt = remove_all ds (remove_data mt d)

unfoldable pub count_down : List QueueData → ℤ → ℤ
count_down [] n = n
count_down (d ∷ ds) n = count_down ds (add64 n (negsuc 0))

abbrev pub forget_items : List QueueData → ChunkedList → ChunkedList
forget_items ds cl = record cl {
  memory_tracker = remove_all ds cl.memory_tracker;
  total_items = count_down ds cl.total_items;
}

abbrev pub erase_element : ℕ → List ℕ → List ℕ
erase_element e [] = []
erase_element e (f ∷ fs) = if f == e then fs else f ∷ erase_element e fs

-- An element leaves the list, and its chunk goes back to the pool.
abbrev pub unlink : ℕ → ChunkedList → ChunkedList
unlink e cl = record cl {
  chunks = update cl.chunks e (put_chunk_node (cl.chunks e));
  list = erase_element e cl.list;
  memory_tracker = remove_chunk cl.memory_tracker;
}

-- One round of the loop of `RemoveExpiredData`: the list after it, and how the chunk changed.
unfoldable pub expire_chunk : Clock → ℤ → ChunkedList → ℕ → ChunkedList × List QueueData
expire_chunk clock ttl cl e =
    let (c, out) = remove_expired (clock.at_index e) ttl (cl.chunks e) in
    let cl' = forget_items out (record cl { chunks = update cl.chunks e c }) in
    (if is_empty c then unlink e cl' else cl', out)

-- The loop stops at a chunk that holds an item which has not expired.
unfoldable pub stops_at : Clock → ℤ → ℕ → ChunkNode → Bool
stops_at clock ttl e c = if is_empty c then false else elim (get_earliest_expiry c) [
  | none ↦ false
  | some created ↦ leb_ℤ (clock.at_stop e -ℤ created) ttl
]

abbrev pub removal_info : ChunkNode → ChunkNode → ℕ → ℕ → List ChunkRemovalInfo
removal_info before after e zero = []
removal_info before after e (suc n) =
    record { element = e; removed_count = suc n; old_head = before.head; new_head = after.head }
    ∷ []

-- The loop over the elements that are left: the list after it, the number of items removed and what
-- was removed from each chunk.
unfoldable pub expire_elements :
    Clock → ℤ → List ℕ → ChunkedList → ChunkedList × ℕ × List ChunkRemovalInfo
expire_elements clock ttl [] cl = (cl, 0, [])
expire_elements clock ttl (e ∷ es) cl =
    let (cl', out) = expire_chunk clock ttl cl e in
    let info = removal_info (cl.chunks e) (cl'.chunks e) e (length out) in
    let rest = expire_elements clock ttl es cl' in
    if stops_at clock ttl e (cl'.chunks e)
    then (cl', length out, info)
    else (rest.0, length out + rest.1, info ++ rest.2)

unfoldable pub remove_expired_data :
    Clock → ℤ → ChunkedList → ChunkedList × ℕ × List ChunkRemovalInfo
remove_expired_data clock ttl cl = expire_elements clock ttl cl.list cl

-- The loop of `Clear` over one chunk, with `n` indices left from index `i`.
unfoldable pub clear_cells : ℕ → ℕ → ℕ → ChunkedList → ChunkedList
clear_cells e zero i cl = cl
clear_cells e (suc n) i cl =
    let c = cl.chunks e in
    clear_cells e n (suc i) (record cl {
      chunks = update cl.chunks e (record c { items = update c.items i zero_data });
      memory_tracker = remove_data cl.memory_tracker (c.items i);
    })

unfoldable pub clear_elements : List ℕ → ChunkedList → ChunkedList
clear_elements [] cl = record cl { total_items = pos 0 }
clear_elements (e ∷ es) cl =
    let c = cl.chunks e in clear_elements es (unlink e (clear_cells e (c.size - c.head) c.head cl))

unfoldable pub clear : ChunkedList → ChunkedList
clear cl = clear_elements cl.list cl

-- A callback takes the state on, and tells whether to go on.
abbrev pub Callback : Type 0 → Type 0
Callback S = S → QueueData → ℕ → ℕ → S × Bool

-- The loop of `IterateFrom` over one chunk, with `n` indices left from index `i`.
unfoldable pub iterate_chunk : {S : Type 0} → Callback S → ℕ → ChunkNode → ℕ → ℕ → S → S × Bool
iterate_chunk callback e c zero i s = (s, true)
iterate_chunk callback e c (suc n) i s = elim (get c i) [
  | none ↦ iterate_chunk callback e c n (suc i) s
  | some d ↦
      let (s', go_on) = callback s d e i in
      elim go_on [ true ↦ iterate_chunk callback e c n (suc i) s' | false ↦ (s', false) ]
]

-- The loop over the chunks, on fuel: `next_element` leads to later elements only, so that as many
-- rounds as there are elements are enough.
unfoldable pub iterate_from : {S : Type 0} → Callback S → ℕ → ChunkedList → Option ℕ → ℕ → S → S
iterate_from callback zero cl at index s = s
iterate_from callback (suc fuel) cl none index s = s
iterate_from callback (suc fuel) cl (some e) index s =
    let c = cl.chunks e in
    let (s', go_on) = iterate_chunk callback e c (c.size - index) index s in
    elim go_on [ true ↦ iterate_from callback fuel cl c.next_element 0 s' | false ↦ s' ]

unfoldable pub count_items_from : ChunkedList → Option ℕ → ℕ → ℕ
count_items_from cl at index =
    iterate_from (λ count d e i. (count + 1, true)) cl.allocated cl at index 0
