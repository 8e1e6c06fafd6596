-- ===== src/Cursor/Expiry/Gone.antt =====
-- `RemoveExpiredData` (queue/chunked_list.go) at a chunk whose items have all expired: it leaves the
-- list, and the loop goes on behind it.
use mpmc_queue.Prelude.{
  ℕ, suc, ◌+◌, ◌-◌, ◌≤◌, ◌<◌, ◌≡◌, ◌≢◌, refl, ap, sym, ◌∙◌, inl, inr, List, ◌++◌, arith, length,
  length-append, drop, lt-or-le, lt→ltb, max,
}
use mpmc_queue.Prelude.Int.{ℤ}
use mpmc_queue.Data.{QueueData}
use mpmc_queue.Chunk.{ChunkNode}
use mpmc_queue.Chunk.Live.{live, live_from}
use mpmc_queue.Chunk.Expire.{Expires}
use mpmc_queue.ChunkedList.{ChunkedList, ChunkRemovalInfo, instant, removal_info}
use mpmc_queue.ChunkedList.Links.{IsLinked, contents, unread, contents_of_congr}
use mpmc_queue.ChunkedList.Removal.{
  chunk, gone_items, list_kept, list_gone, chunk-Expires, contents-gone,
}
use mpmc_queue.Cursor.{count_missed}
use mpmc_queue.Cursor.Unread.{IsIn}
use mpmc_queue.Cursor.Expiry.{survivors, after_expiry, Expiry}
use mpmc_queue.Cursor.Expiry.Notes.{
  survivors-append, count_removed-info, count_missed-info_ne, count_missed-info_self,
  raised_index-info_ne, drop-add-append, length-live_from, drop_counts,
}

module _ (now ttl : ℤ) (cl : ChunkedList) (first : ℕ) (v : IsLinked cl first) where
  module _ (some_left : first < cl.allocated) where
    abbrev c' : ChunkNode
    c' = chunk now ttl cl first v some_left

    abbrev outs : List QueueData
    outs = gone_items now ttl cl first v some_left

    abbrev kept : ChunkedList
    kept = list_kept now ttl cl first v some_left

    abbrev gone : ChunkedList
    gone = list_gone now ttl cl first v some_left

    x : Expires (λ _. now) ttl (cl.chunks first) c' outs
    x = chunk-Expires (instant now) ttl cl first v some_left

    unread-gone_ne : (e i : ℕ) → first < e → unread gone e i ≡ unread cl e i
    unread-gone_ne e i h = rw (gone_ne e h) (
        ap (λ ds. live_from (cl.chunks e) i ++ ds)
          (contents_of_congr gone.chunks cl.chunks (suc e) (cl.allocated - suc e)
            (λ j lo hi. ap live (gone_ne j (omega arith)))))
      where
        gone_ne : (j : ℕ) → first < j → gone.chunks j ≡ cl.chunks j
        gone_ne j lt = ground arith

    contents-behind_gone : contents gone (suc first) ≡ contents cl (suc first)
    contents-behind_gone =
        contents_of_congr gone.chunks cl.chunks (suc first) (cl.allocated - suc first)
          (λ j lo hi. ground arith)

    IsIn-gone : (e i : ℕ) → first < e → IsIn cl first e i → IsIn gone (suc first) e i
    IsIn-gone e i h p = record {
      from_first = h;
      made = p.made;
      up_to_size = ground (arith, p.up_to_size);
    }

    -- The rest of the loop, behind a chunk that went.
    module _ (gone_all : c'.head ≡ c'.size) (cl' : ChunkedList) (first' r : ℕ)
        (infos : List ChunkRemovalInfo)
        (rest : Expiry now ttl gone cl' (suc first) first' r infos) where
      abbrev all_infos : List ChunkRemovalInfo
      all_infos = removal_info (cl.chunks first) c' first (length outs) ++ infos

      some_out : 0 < length outs
      some_out =
          omega (arith, x.head_moved, x.size_kept, (v.filled first (omega arith) some_left).held)

      split_gone : contents cl first ≡ outs ++ contents gone (suc first)
      split_gone = contents-gone (instant now) ttl cl first v some_left gone_all

      reader_gone_here :
          (i : ℕ)
          → i ≤ (cl.chunks first).size
          → (after_expiry cl' first' first i all_infos
              ≡ drop (count_missed first i all_infos) (unread cl first i))
            × (count_missed first i all_infos + length (after_expiry cl' first' first i all_infos)
                ≡ length (unread cl first i))
      reader_gone_here i h =
          let b = cl.chunks first in
          let k = c'.head - max i b.head in
          let m : count_missed first i all_infos ≡ k + r =
            count_missed-info_self b c' first i (length outs) infos some_out x.head_moved
            ∙ ap (λ j. k + j) rest.total in
          let kl : k ≡ length (live_from b i) = omega (arith, length-live_from b i, x.size_kept) in
          let u : after_expiry cl' first' first i all_infos
              ≡ drop (count_missed first i all_infos) (unread cl first i) =
            rw (lt→ltb first first' rest.onward) (
              rest.dropped
              ∙ ap (drop r) contents-behind_gone
              ∙ sym (drop-add-append (live_from b i) (contents cl (suc first)) k r kl)
              ∙ ap (λ j. drop j (unread cl first i)) (sym m)) in
          (
            u,
            drop_counts (count_missed first i all_infos) (unread cl first i) _ u (
                omega (
                  arith,
                  m,
                  kl,
                  rest.counted,
                  ap length contents-behind_gone,
                  length-append (live_from b i) (contents cl (suc first)),
                )),
          )

      reader_gone :
          (e i : ℕ)
          → IsIn cl first e i
          → (after_expiry cl' first' e i all_infos
              ≡ drop (count_missed e i all_infos) (unread cl e i))
            × (count_missed e i all_infos + length (after_expiry cl' first' e i all_infos)
                ≡ length (unread cl e i))
      reader_gone e i p = elim (lt-or-le first e) [
        | inl lt ↦
            let ne : first ≢ e = omega arith in
            let m = count_missed-info_ne (cl.chunks first) c' first e i (length outs) infos ne in
            let j = raised_index-info_ne (cl.chunks first) c' first e i (length outs) infos ne in
            rw (m, j, ← unread-gone_ne e i lt) (rest.reader e i (IsIn-gone e i lt p))
        | inr ge ↦
            let here : e ≡ first = omega (arith, p.from_first) in
            let h : i ≤ (cl.chunks first).size = rw here at p.up_to_size in
            rw here (reader_gone_here i h)
      ]

      pub Expiry-gone : Expiry now ttl cl cl' first first' (length outs + r) all_infos
      Expiry-gone = record {
        linked = rest.linked;
        onward = omega (arith, rest.onward);
        made = rest.made;
        left =
            rest.left
            ∙ sym (
                ap (survivors now ttl) split_gone
                ∙ survivors-append now ttl (cl.chunks first).head outs (contents gone (suc first))
                    x.taken);
        dropped =
            rest.dropped
            ∙ sym (
                ap (drop (length outs + r)) split_gone
                ∙ drop-add-append outs (contents gone (suc first)) (length outs) r refl);
        counted = omega (
          arith,
          rest.counted,
          ap length split_gone,
          length-append outs (contents gone (suc first)),
        );
        total =
            count_removed-info (cl.chunks first) c' first (length outs) infos
            ∙ ap (λ k. length outs + k) rest.total;
        reader = reader_gone;
        position = λ e i p le.
            let lt : first < e = omega (arith, rest.onward) in
            let ne : first ≢ e = omega arith in
            let j = raised_index-info_ne (cl.chunks first) c' first e i (length outs) infos ne in
            rw j (rest.position e i (IsIn-gone e i lt p) le);
      }
