-- ===== src/ChunkedList/Cleared.antt =====
-- `Clear` of queue/chunked_list.go: what is left of the list and of its counters.
use mpmc_queue.Prelude.{
  ℕ, zero, suc, ◌+◌, ◌-◌, ◌*◌, ◌≤◌, ◌≡◌, ◌≢◌, refl, ap, sym, subst, ◌∙◌, [], arith, cells,
  cells-update_lt, update, update_self, update_ne, ==_refl,
}
use mpmc_queue.Prelude.Int.{pos}
use mpmc_queue.Prelude.Int64.{max_int64}
use mpmc_queue.Data.{zero_data}
use mpmc_queue.Chunk.{ChunkNode, put_chunk_node}
use mpmc_queue.Chunk.Live.{live}
use mpmc_queue.Memory.{remove_data, remove_chunk}
use mpmc_queue.Memory.Totals.{footprint, remove_data-total, remove_data_keeps, remove_chunk-total}
use mpmc_queue.ChunkedList.{ChunkedList, clear, clear_cells, clear_elements, unlink}
use mpmc_queue.ChunkedList.Links.{elements, contents_of, contents_of_congr, IsLinked}
use mpmc_queue.ChunkedList.Totals.{bytes, bytes-append, held, IsCounted}

-- The items of a chunk leave the total.
clear_cells-total :
    (e n i : ℕ) (cl : ChunkedList) (t : ℕ)
    → cl.memory_tracker.total_memory ≡ pos t
    → t ≤ max_int64
    → bytes (cells (cl.chunks e).items i n) ≤ t
    → let mt = (clear_cells e n i cl).memory_tracker in
      (mt.total_memory ≡ pos (t - bytes (cells (cl.chunks e).items i n)))
      × (mt.layout ≡ cl.memory_tracker.layout)
unfolding clear_cells
clear_cells-total e zero i cl t h le few = (h ∙ ap pos (omega arith), refl)
clear_cells-total e (suc n) i cl t h le few =
    let c = cl.chunks e in
    let d = c.items i in
    let emptied : ChunkNode = record c { items = update c.items i zero_data } in
    let cl1 : ChunkedList = record cl {
      chunks = update cl.chunks e emptied;
      memory_tracker = remove_data cl.memory_tracker d;
    } in
    let step = remove_data-total cl.memory_tracker t h d le (omega arith) in
    let same : cells (cl1.chunks e).items (suc i) n ≡ cells c.items (suc i) n =
      ap (λ (b : ChunkNode). cells b.items (suc i) n) (update_self cl.chunks e emptied)
      ∙ cells-update_lt c.items i (suc i) n zero_data (omega arith) in
    let (total, layout) =
      clear_cells-total e n (suc i) cl1 (t - footprint d) step (omega arith)
        (omega (arith, ap bytes same)) in
    (
      total ∙ ap pos (omega (arith, ap bytes same)),
      layout ∙ (remove_data_keeps cl.memory_tracker d).0,
    )

clear_cells-list : (e n i : ℕ) (cl : ChunkedList) → (clear_cells e n i cl).list ≡ cl.list
unfolding clear_cells
clear_cells-list e zero i cl = refl
clear_cells-list e (suc n) i cl = clear_cells-list e n (suc i) _

clear_cells-others :
    (e n i j : ℕ) (cl : ChunkedList) → e ≢ j → (clear_cells e n i cl).chunks j ≡ cl.chunks j
unfolding clear_cells
clear_cells-others e zero i j cl h = refl
clear_cells-others e (suc n) i j cl h =
    clear_cells-others e n (suc i) j _ h ∙ update_ne cl.chunks {i = e} {j = j} _ (λ q. h (sym q))

-- What `Clear` leaves.
pub record IsCleared (cl : ChunkedList) : Type 0 where
  pub no_elements : cl.list ≡ []
  pub no_items : cl.total_items ≡ pos 0
  pub no_memory : cl.memory_tracker.total_memory ≡ pos 0

unlinked-layout :
    (b : ChunkedList) (i : ℕ)
    → (unlink i b).memory_tracker.layout.chunk_node_size ≡ b.memory_tracker.layout.chunk_node_size
unfolding remove_chunk
unlinked-layout b i = refl

clear_elements-IsCleared :
    (n first t k : ℕ) (cl : ChunkedList)
    → cl.list ≡ elements first n
    → cl.memory_tracker.layout.chunk_node_size ≡ k
    → cl.memory_tracker.total_memory ≡ pos t
    → t ≤ max_int64
    → t ≡ bytes (contents_of cl.chunks first n) + n * k
    → IsCleared (clear_elements (elements first n) cl)
unfolding clear_elements
clear_elements-IsCleared zero first t k cl l s h le e = record {
  no_elements = l;
  no_items = refl;
  no_memory = h ∙ ap pos (omega arith);
}
clear_elements-IsCleared (suc n) first t k cl l s h le e =
    let c = cl.chunks first in
    let cl1 = clear_cells first (c.size - c.head) c.head cl in
    let sum = bytes-append (live c) (contents_of cl.chunks (suc first) n) in
    let (total, layout) =
      clear_cells-total first (c.size - c.head) c.head cl t h le (omega (arith, e, sum)) in
    let size : cl1.memory_tracker.layout.chunk_node_size ≡ k = rw layout s in
    let cl2 = unlink first cl1 in
    let rest : contents_of cl2.chunks (suc first) n ≡ contents_of cl.chunks (suc first) n =
      contents_of_congr cl2.chunks cl.chunks (suc first) n (λ j lo hi. ap live (
        update_ne cl1.chunks {i = first} {j = j} (put_chunk_node (cl1.chunks first)) (omega arith)
        ∙ clear_cells-others first (c.size - c.head) c.head j cl (omega arith))) in
    let t1 = t - bytes (live c) in
    let less : cl2.memory_tracker.total_memory ≡ pos (t1 - k) =
      remove_chunk-total cl1.memory_tracker t1 total (omega arith) (omega (arith, e, sum, size))
      ∙ ap (λ m. pos (t1 - m)) size in
    clear_elements-IsCleared n (suc first) (t1 - k) k cl2
      (rw (clear_cells-list first (c.size - c.head) c.head cl, l, ==_refl first) refl)
      (unlinked-layout cl1 first ∙ size) less (omega arith) (omega (arith, e, sum, ap bytes rest))

-- Clear of a linked list with exact counters leaves no element, and brings the number of items and
-- the tracker's total to exactly 0.
pub clear-IsCleared :
    (cl : ChunkedList) (first : ℕ) → IsLinked cl first → IsCounted cl first → IsCleared (clear cl)
unfolding clear
clear-IsCleared cl first v c =
    subst (λ es. IsCleared (clear_elements es cl)) (sym v.in_list)
      (clear_elements-IsCleared (cl.allocated - first) first (held cl first)
        cl.memory_tracker.layout.chunk_node_size cl v.in_list refl c.memory c.fits refl)
