-- ===== src/Cursor/Expiry/Kept.antt =====
-- `RemoveExpiredData` (queue/chunked_list.go) at a chunk that keeps an item: the loop ends there.
use mpmc_queue.Prelude.{
  ℕ, suc, ◌+◌, ◌-◌, ◌≤◌, ◌<◌, ◌≡◌, ◌≢◌, refl, ap, sym, ◌∙◌, inl, inr, List, [], ◌++◌, append-nil,
  arith, cells, update_self, update_ne, length, length-append, drop, drop-append,
  drop-length-append, lt-or-le, le→not_ltb, max,
}
use mpmc_queue.Prelude.Int.{ℤ}
use mpmc_queue.Data.{QueueData}
use mpmc_queue.Chunk.{ChunkNode}
use mpmc_queue.Chunk.Live.{live, live_from}
use mpmc_queue.Chunk.Expire.{Expires}
use mpmc_queue.ChunkedList.{ChunkedList, instant, removal_info}
use mpmc_queue.ChunkedList.Links.{IsLinked, contents, unread, contents_of_congr, contents_head}
use mpmc_queue.ChunkedList.Removal.{
  chunk, gone_items, list_kept, list_gone, chunk-Expires, IsLinked-kept, contents-kept,
  contents-behind,
}
use mpmc_queue.Cursor.{count_removed, count_missed, raised_index}
use mpmc_queue.Cursor.Unread.{IsIn}
use mpmc_queue.Cursor.Expiry.{survivors, after_expiry, Expiry}
use mpmc_queue.Cursor.Expiry.Notes.{
  survivors-append, count_removed-info, count_missed-info_ne, count_missed-info_last,
  raised_index-info_ne, raised_index-info_self, live_from-Expires, survivors_fresh,
  length-live_from, drop_counts,
}

module _ (now ttl : ℤ) (cl : ChunkedList) (first : ℕ) (v : IsLinked cl first) where
  pub Expiry-none : cl.allocated ≤ first → Expiry now ttl cl cl first first 0 []
  Expiry-none h =
      let n : cl.allocated - first ≡ 0 = omega arith in
      record {
        linked = v;
        onward = omega arith;
        made = refl;
        left = rw n refl;
        dropped = refl;
        counted = omega arith;
        total = refl;
        reader = λ e i p. absurd (omega (arith, p.from_first, p.made));
        position = λ e i p le. p;
      }

  module _ (some_left : first < cl.allocated) where
    abbrev c' : ChunkNode
    c' = chunk now ttl cl first v some_left

    abbrev outs : List QueueData
    outs = gone_items now ttl cl first v some_left

    abbrev kept : ChunkedList
    kept = list_kept now ttl cl first v some_left

    abbrev gone : ChunkedList
    gone = list_gone now ttl cl first v some_left

    x : Expires (λ _. now) ttl (cl.chunks first) c' outs
    x = chunk-Expires (instant now) ttl cl first v some_left

    unread-kept_self : (j : ℕ) → unread kept first j ≡ live_from c' j ++ contents cl (suc first)
    unread-kept_self j = rw (update_self cl.chunks first c') (
        ap (λ ds. live_from c' j ++ ds) (contents-behind (instant now) ttl cl first v some_left c'))

    unread-kept_ne : (e i : ℕ) → first < e → unread kept e i ≡ unread cl e i
    unread-kept_ne e i h = rw (update_ne cl.chunks {i = first} {j = e} c' (omega arith)) (
        ap (λ ds. live_from (cl.chunks e) i ++ ds)
          (contents_of_congr kept.chunks cl.chunks (suc e) (cl.allocated - suc e)
            (λ j lo hi. ap live (update_ne cl.chunks {i = first} {j = j} c' (omega arith)))))

    missed_here :
        (i : ℕ)
        → i ≤ (cl.chunks first).size
        → c'.head - max i (cl.chunks first).head ≤ length (live_from (cl.chunks first) i)
    missed_here i h =
        omega (arith, length-live_from (cl.chunks first) i, x.head_within, x.size_kept)

    reader_kept_here :
        (i : ℕ)
        → i ≤ (cl.chunks first).size
        → let infos = removal_info (cl.chunks first) c' first (length outs) in
          (after_expiry kept first first i infos
            ≡ drop (count_missed first i infos) (unread cl first i))
          × (count_missed first i infos + length (after_expiry kept first first i infos)
              ≡ length (unread cl first i))
    reader_kept_here i h =
        let infos = removal_info (cl.chunks first) c' first (length outs) in
        let b = cl.chunks first in
        let m = count_missed-info_last b c' first i (length outs) x.head_moved in
        let few = missed_here i h in
        let (_, j, _) = raised_index-info_self b c' first i (length outs) x.head_moved in
        let same : live_from c' (raised_index first i infos) ≡ live_from c' i =
          ap (λ k. cells c'.items k (c'.size - k)) j in
        let u : after_expiry kept first first i infos
            ≡ drop (count_missed first i infos) (unread cl first i) =
          rw (le→not_ltb first first (omega arith)) (
            unread-kept_self (raised_index first i infos)
            ∙ ap (λ ds. ds ++ contents cl (suc first))
                (same ∙ live_from-Expires (λ _. now) ttl b c' outs i x h)
            ∙ sym
                (drop-append (c'.head - max i b.head) (live_from b i) (contents cl (suc first)) few)
            ∙ ap (λ k. drop k (unread cl first i)) (sym m)) in
        (
          u,
          drop_counts (count_missed first i infos) (unread cl first i) _ u
              (omega (arith, m, few, length-append (live_from b i) (contents cl (suc first)))),
        )

    reader_kept :
        (e i : ℕ)
        → IsIn cl first e i
        → let infos = removal_info (cl.chunks first) c' first (length outs) in
          (after_expiry kept first e i infos ≡ drop (count_missed e i infos) (unread cl e i))
          × (count_missed e i infos + length (after_expiry kept first e i infos)
              ≡ length (unread cl e i))
    reader_kept e i p = elim (lt-or-le e first) [
      | inl lt ↦ absurd (omega (arith, p.from_first))
      | inr le ↦ elim (lt-or-le first e) [
        | inl lt ↦
            let infos = removal_info (cl.chunks first) c' first (length outs) in
            let ne : first ≢ e = omega arith in
            let m : count_missed e i infos ≡ 0 =
              ap (count_missed e i) (sym (append-nil infos))
              ∙ count_missed-info_ne (cl.chunks first) c' first e i (length outs) [] ne in
            let j : raised_index e i infos ≡ i =
              ap (raised_index e i) (sym (append-nil infos))
              ∙ raised_index-info_ne (cl.chunks first) c' first e i (length outs) [] ne in
            let u : after_expiry kept first e i infos ≡ unread cl e i =
              rw (le→not_ltb e first le) (ap (unread kept e) j ∙ unread-kept_ne e i lt) in
            (u ∙ ap (λ k. drop k (unread cl e i)) (sym m), omega (arith, m, ap length u))
        | inr ge ↦
            let here : e ≡ first = omega arith in
            let h : i ≤ (cl.chunks first).size = rw here at p.up_to_size in
            rw here (reader_kept_here i h)
      ]
    ]

    position_kept :
        (e i : ℕ)
        → IsIn cl first e i
        → IsIn kept first e
            (raised_index e i (removal_info (cl.chunks first) c' first (length outs)))
    position_kept e i p = elim (lt-or-le e first) [
      | inl lt ↦ absurd (omega (arith, p.from_first))
      | inr le ↦ elim (lt-or-le first e) [
        | inl lt ↦
            let infos = removal_info (cl.chunks first) c' first (length outs) in
            let ne : first ≢ e = omega arith in
            let j : raised_index e i infos ≡ i =
              ap (raised_index e i) (sym (append-nil infos))
              ∙ raised_index-info_ne (cl.chunks first) c' first e i (length outs) [] ne in
            rw j (record {
              from_first = le;
              made = p.made;
              up_to_size =
                  rw (update_ne cl.chunks {i = first} {j = e} c' (omega arith)) p.up_to_size;
            })
        | inr ge ↦
            let here : e ≡ first = omega arith in
            let h : i ≤ (cl.chunks first).size = rw here at p.up_to_size in
            let (_, _, top) =
              raised_index-info_self (cl.chunks first) c' first i (length outs) x.head_moved in
            rw here (record {
              from_first = omega arith;
              made = some_left;
              up_to_size =
                  rw (update_self cl.chunks first c')
                    (omega (arith, top, x.head_within, x.size_kept));
            })
      ]
    ]

    pub Expiry-kept :
        c'.head < c'.size
        → Expiry now ttl cl kept first first
            (length outs)
            (removal_info (cl.chunks first) c' first (length outs))
    Expiry-kept h =
        let infos = removal_info (cl.chunks first) c' first (length outs) in
        let split = contents-kept (instant now) ttl cl first v some_left in
        let front : contents kept first ≡ live c' ++ contents cl (suc first) =
          contents_head kept first some_left
          ∙ rw (update_self cl.chunks first c') (
              ap (λ ds. live c' ++ ds)
                (contents-behind (instant now) ttl cl first v some_left c')) in
        record {
          linked = IsLinked-kept (instant now) ttl cl first v some_left h;
          onward = omega arith;
          made = refl;
          left = sym (
              ap (survivors now ttl) split
              ∙ survivors-append now ttl (cl.chunks first).head outs (contents kept first) x.taken
              ∙ ap (survivors now ttl) front
              ∙ survivors_fresh now ttl c' (contents cl (suc first)) h (x.stopped h)
              ∙ sym front);
          dropped =
              sym (ap (drop (length outs)) split ∙ drop-length-append outs (contents kept first));
          counted = omega (arith, ap length split, length-append outs (contents kept first));
          total =
              ap count_removed (sym (append-nil infos))
              ∙ count_removed-info (cl.chunks first) c' first (length outs) []
              ∙ omega arith;
          reader = reader_kept;
          position = λ e i p le. position_kept e i p;
        }
