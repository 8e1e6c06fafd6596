-- ===== src/ChunkedList/Count.antt =====
-- `CountItemsFrom` of queue/chunked_list.go counts what a reader has before it.
use mpmc_queue.Prelude.{
  ℕ, zero, suc, ◌+◌, ◌-◌, ◌≤◌, ◌<◌, ◌≡◌, refl, ap, sym, ◌∙◌, ◌++◌, true, none, some, arith, length,
  length-append, length-cells, lt-or-le, inl, inr, max,
}
use mpmc_queue.Chunk.{ChunkNode, get}
use mpmc_queue.Chunk.Live.{live_from}
use mpmc_queue.ChunkedList.{ChunkedList, Callback, iterate_chunk, iterate_from, count_items_from}
use mpmc_queue.Cursor.Look.{live_from_zero}
use mpmc_queue.ChunkedList.Links.{IsLinked, unread, contents, contents_head}

abbrev counter : Callback ℕ
counter count d e i = (count + 1, true)

-- Over one chunk the count goes up by the live items from index `i` on.
iterate_chunk-counter :
    (e n i s : ℕ) (c : ChunkNode)
    → i + n ≡ c.size
    → iterate_chunk counter e c n i s ≡ (s + (c.size - max i c.head), true)
unfolding iterate_chunk get
iterate_chunk-counter e zero i s c h = ground arith
iterate_chunk-counter e (suc n) i s c h = elim (lt-or-le i c.head) [
  | inl old ↦ ground (arith, iterate_chunk-counter e n (suc i) s c (omega arith))
  | inr new ↦ ground (arith, iterate_chunk-counter e n (suc i) (s + 1) c (omega arith))
]

length-live_from : (c : ChunkNode) (i : ℕ) → length (live_from c i) ≡ c.size - max i c.head
length-live_from c i = length-cells c.items (max i c.head) (c.size - max i c.head)

pub length-unread :
    (cl : ChunkedList) (e i : ℕ)
    → length (unread cl e i)
      ≡ ((cl.chunks e).size - max i (cl.chunks e).head) + length (contents cl (suc e))
length-unread cl e i =
    length-append (live_from (cl.chunks e) i) (contents cl (suc e))
    ∙ rw (length-live_from (cl.chunks e) i) refl

module _ (cl : ChunkedList) (first : ℕ) (v : IsLinked cl first) where
  iterate_from-none : (fuel s : ℕ) → iterate_from counter fuel cl none 0 s ≡ s
  unfolding iterate_from
  iterate_from-none zero s = refl
  iterate_from-none (suc fuel) s = refl

  iterate_from-counter :
      (fuel e i s : ℕ)
      → first ≤ e
      → e < cl.allocated
      → i ≤ (cl.chunks e).size
      → cl.allocated - e ≤ fuel
      → iterate_from counter fuel cl (some e) i s ≡ s + length (unread cl e i)
  unfolding iterate_from
  iterate_from-counter zero e i s lo hi le h = absurd (omega arith)
  iterate_from-counter (suc fuel) e i s lo hi le h =
      let c = cl.chunks e in
      let f = v.filled e lo hi in
      let s' = s + (c.size - max i c.head) in
      let step : iterate_from counter (suc fuel) cl (some e) i s
          ≡ iterate_from counter fuel cl c.next_element 0 s' =
        ground (arith, iterate_chunk-counter e (c.size - i) i s c (omega arith)) in
      let split = length-unread cl e i in
      elim (lt-or-le (suc e) cl.allocated) [
        | inl more ↦
            let g = v.filled (suc e) (omega arith) more in
            let linked : c.next_element ≡ some (suc e) = f.linked ∙ ground arith in
            let all : contents cl (suc e) ≡ unread cl (suc e) 0 =
              contents_head cl (suc e) more
              ∙ ap (λ ds. ds ++ contents cl (suc (suc e)))
                  (sym (live_from_zero (cl.chunks (suc e)))) in
            let ih =
              iterate_from-counter fuel (suc e) 0 s' (omega arith) more (omega arith)
                (omega arith) in
            step
            ∙ ap (λ o. iterate_from counter fuel cl o 0 s') linked
            ∙ omega (arith, ih, split, ap length all)
        | inr last ↦
            let linked : c.next_element ≡ none = f.linked ∙ ground arith in
            let n : length (contents cl (suc e)) ≡ 0 =
              let m : cl.allocated - suc e ≡ 0 = omega arith in rw m refl in
            step
            ∙ ap (λ o. iterate_from counter fuel cl o 0 s') linked
            ∙ iterate_from-none fuel s'
            ∙ omega (arith, split, n)
      ]

  -- From a position in a linked list, CountItemsFrom counts the items that a reader there has
  -- before it.
  pub count_items_from-unread :
      (e i : ℕ)
      → first ≤ e
      → e < cl.allocated
      → i ≤ (cl.chunks e).size
      → count_items_from cl (some e) i ≡ length (unread cl e i)
  unfolding count_items_from
  count_items_from-unread e i lo hi le =
      iterate_from-counter cl.allocated e i 0 lo hi le (omega arith) ∙ omega arith
