-- ===== src/ChunkedList/Released.antt =====
-- The counters in a round of `RemoveExpiredData` (queue/chunked_list.go): what leaves the list leaves
-- them, and nothing is clamped.
use mpmc_queue.Prelude.{
  ℕ, suc, ◌+◌, ◌-◌, ◌*◌, ◌≤◌, ◌<◌, ◌≡◌, refl, ap, sym, ◌∙◌, List, [], ◌∷◌, ◌++◌, arith, length,
  length-append,
}
use mpmc_queue.Prelude.Int.{ℤ, pos, negsuc}
use mpmc_queue.Prelude.Int64.{max_int64, add64, add64-neg_one}
use mpmc_queue.Data.{QueueData}
use mpmc_queue.Memory.{MemoryTracker, remove_data, remove_chunk}
use mpmc_queue.Memory.Totals.{footprint, remove_data-total, remove_data_keeps, remove_chunk-total}
use mpmc_queue.ChunkedList.{ChunkedList, Clock, remove_all, count_down, unlink}
use mpmc_queue.ChunkedList.Links.{IsLinked, contents}
use mpmc_queue.ChunkedList.Totals.{bytes, bytes-append, held, IsCounted, length-contents}
use mpmc_queue.ChunkedList.Removal.{after, out, kept_list, contents-kept, contents-gone}

remove_all-total :
    (ds : List QueueData) (mt : MemoryTracker) (t : ℕ)
    → mt.total_memory ≡ pos t
    → t ≤ max_int64
    → bytes ds ≤ t
    → ((remove_all ds mt).total_memory ≡ pos (t - bytes ds))
      × ((remove_all ds mt).layout ≡ mt.layout)
unfolding remove_all
remove_all-total [] mt t e h k = (e ∙ ap pos (omega arith), refl)
remove_all-total (d ∷ ds) mt t e h k =
    let step = remove_data-total mt t e d h (omega arith) in
    let (total, same) =
      remove_all-total ds (remove_data mt d) (t - footprint d) step (omega arith) (omega arith) in
    (total ∙ ap pos (omega arith), same ∙ (remove_data_keeps mt d).0)

count_down_lem :
    (ds : List QueueData) (n : ℕ)
    → n ≤ max_int64
    → length ds ≤ n
    → count_down ds (pos n) ≡ pos (n - length ds)
unfolding count_down
count_down_lem [] n h k = ap pos (omega arith)
count_down_lem (d ∷ ds) n h k =
    let m : n ≡ n - 1 + 1 = omega arith in
    let less : add64 (pos n) (negsuc 0) ≡ pos (n - 1) =
      ap (λ j. add64 (pos j) (negsuc 0)) m ∙ add64-neg_one (n - 1) (omega arith) in
    rw less (count_down_lem ds (n - 1) (omega arith) (omega arith) ∙ ap pos (omega arith))

module _ (clock : Clock) (ttl : ℤ) (cl : ChunkedList) (first : ℕ) (v : IsLinked cl first)
    (some_left : first < cl.allocated) (c : IsCounted cl first) where
  abbrev gone_out : List QueueData
  gone_out = out clock ttl cl first v some_left

  abbrev kept : ChunkedList
  kept = kept_list clock ttl cl first v some_left

  abbrev chunk_bytes : ℕ
  chunk_bytes = cl.memory_tracker.layout.chunk_node_size

  split : contents cl first ≡ gone_out ++ contents kept first
  split = contents-kept clock ttl cl first v some_left

  bytes_split : bytes (contents cl first) ≡ bytes gone_out + bytes (contents kept first)
  bytes_split = ap bytes split ∙ bytes-append gone_out (contents kept first)

  length_split : length (contents cl first) ≡ length gone_out + length (contents kept first)
  length_split = ap length split ∙ length-append gone_out (contents kept first)

  few : length (contents cl first) ≤ max_int64
  few = omega (arith, length-contents cl first v c.sized, c.fits)

  kept-total :
      (kept.memory_tracker.total_memory ≡ pos (held cl first - bytes gone_out))
      × (kept.memory_tracker.layout ≡ cl.memory_tracker.layout)
  kept-total =
      remove_all-total gone_out cl.memory_tracker (held cl first) c.memory c.fits
        (omega (arith, bytes_split))

  kept-items : kept.total_items ≡ pos (length (contents cl first) - length gone_out)
  kept-items =
      rw c.items
        (count_down_lem gone_out (length (contents cl first)) few (omega (arith, length_split)))

  held-kept : held kept first ≡ held cl first - bytes gone_out
  held-kept = rw (kept-total.1) (omega (arith, bytes_split))

  -- A round that leaves its chunk in the list.
  pub IsCounted-kept : IsCounted kept first
  IsCounted-kept = record {
    items = kept-items ∙ ap pos (omega (arith, length_split));
    memory = kept-total.0 ∙ ap pos (sym held-kept);
    fits = omega (arith, held-kept, c.fits);
    sized = rw (kept-total.1) c.sized;
  }

  -- A round that takes it out.
  module _
      (empty : (after clock ttl cl first v some_left).head
        ≡ (after clock ttl cl first v some_left).size) where
    abbrev gone : ChunkedList
    gone = unlink first kept

    gone_split : contents cl first ≡ gone_out ++ contents gone (suc first)
    gone_split = contents-gone clock ttl cl first v some_left empty

    bytes-gone : bytes (contents cl first) ≡ bytes gone_out + bytes (contents gone (suc first))
    bytes-gone = ap bytes gone_split ∙ bytes-append gone_out (contents gone (suc first))

    length-gone : length (contents cl first) ≡ length gone_out + length (contents gone (suc first))
    length-gone = ap length gone_split ∙ length-append gone_out (contents gone (suc first))

    chunks_held :
        (cl.allocated - first) * chunk_bytes
        ≡ (cl.allocated - suc first) * chunk_bytes + chunk_bytes
    chunks_held =
        let n : cl.allocated - first ≡ suc (cl.allocated - suc first) = omega arith in
        rw n (omega arith)

    gone-layout : gone.memory_tracker.layout ≡ cl.memory_tracker.layout
    unfolding remove_chunk
    gone-layout = kept-total.1

    held-gone : held gone (suc first) ≡ held cl first - bytes gone_out - chunk_bytes
    held-gone = rw gone-layout (omega (arith, bytes-gone, chunks_held))

    gone-total :
        gone.memory_tracker.total_memory ≡ pos (held cl first - bytes gone_out - chunk_bytes)
    gone-total =
        let (total, same) = kept-total in
        let n : kept.memory_tracker.layout.chunk_node_size ≡ chunk_bytes = rw same refl in
        remove_chunk-total kept.memory_tracker (held cl first - bytes gone_out) total
          (omega (arith, c.fits)) (omega (arith, n, bytes-gone, chunks_held))
        ∙ ap (λ k. pos (held cl first - bytes gone_out - k)) n

    pub IsCounted-gone : IsCounted gone (suc first)
    IsCounted-gone = record {
      items = kept-items ∙ ap pos (omega (arith, length-gone));
      memory = gone-total ∙ ap pos (sym held-gone);
      fits = omega (arith, held-gone, c.fits);
      sized = rw gone-layout c.sized;
    }
