-- ===== src/Consumer/Unread.antt =====
-- `HasMoreData` and `GetUnreadCount`, of consumers and of groups, against the list of the items that a
-- reader has before it.
use mpmc_queue.Prelude.{
  ℕ, suc, ◌-◌, ◌<◌, ◌≡◌, ◌↔◌, refl, ap, inl, inr, true, Option, none, some, arith, length, lt-or-le,
  length-append,
}
use mpmc_queue.Prelude.Int.{pos}
use mpmc_queue.ChunkedList.{ChunkedList}
use mpmc_queue.ChunkedList.Links.{IsLinked, contents, contents_head}
use mpmc_queue.ChunkedList.Totals.{IsCounted}
use mpmc_queue.ChunkedList.Count.{count_items_from-unread, length-unread}
use mpmc_queue.Chunk.Live.{live, length-live}
use mpmc_queue.Cursor.{Cursor}
use mpmc_queue.Cursor.Unread.{IsCursor, unread_at}
use mpmc_queue.ConsumerGroup.{more_at, unread_count_at}

module _ (cl : ChunkedList) (first : ℕ) (v : IsLinked cl first) (c : IsCounted cl first) where
  unread_count_lem :
      (o : Option ℕ) (i : ℕ)
      → IsCursor cl first (record { chunk_element = o; index_in_chunk = i })
      → unread_count_at cl (record { chunk_element = o; index_in_chunk = i })
        ≡ pos (length (unread_at cl first (record { chunk_element = o; index_in_chunk = i })))
  unfolding unread_count_at
  unread_count_lem none i p = c.items
  unread_count_lem (some e) i p =
      ap pos (count_items_from-unread cl first v e i p.from_first p.made p.up_to_size)

  -- In a linked list with exact counters, the unread count of a position in the list, or of a
  -- reader that has not begun, is the number of items before it.
  pub unread_count_at-unread :
      (cur : Cursor)
      → IsCursor cl first cur
      → unread_count_at cl cur ≡ pos (length (unread_at cl first cur))
  unread_count_at-unread cur p = unread_count_lem cur.chunk_element cur.index_in_chunk p

  more_lem :
      (o : Option ℕ) (i : ℕ)
      → IsCursor cl first (record { chunk_element = o; index_in_chunk = i })
      → (more_at cl (record { chunk_element = o; index_in_chunk = i }) ≡ true)
        ↔ (0 < length (unread_at cl first (record { chunk_element = o; index_in_chunk = i })))
  unfolding more_at
  more_lem none i p = rw c.items (ground arith)
  more_lem (some e) i p =
      let f = v.filled e p.from_first p.made in
      elim (lt-or-le i (cl.chunks e).size) [
        | inl lt ↦ ground (arith, length-unread cl e i, f)
        | inr le ↦ elim (lt-or-le (suc e) cl.allocated) [
          | inl more ↦
              let g = v.filled (suc e) (omega (arith, p.from_first)) more in
              ground (
                arith,
                f,
                g,
                length-unread cl e i,
                ap length (contents_head cl (suc e) more),
                length-append (live (cl.chunks (suc e))) (contents cl (suc (suc e))),
                length-live (cl.chunks (suc e)),
              )
          | inr last ↦
              let n : length (contents cl (suc e)) ≡ 0 =
                let m : cl.allocated - suc e ≡ 0 = omega arith in rw m refl in
              ground (arith, f, length-unread cl e i, n)
        ]
      ]

  -- In a linked list with exact counters, a reader whose position is in the list, or that has not
  -- begun, has more data exactly where an item is before it.
  pub more_at_iff :
      (cur : Cursor)
      → IsCursor cl first cur
      → (more_at cl cur ≡ true) ↔ (0 < length (unread_at cl first cur))
  more_at_iff cur p = more_lem cur.chunk_element cur.index_in_chunk p
