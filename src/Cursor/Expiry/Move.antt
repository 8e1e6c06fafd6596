-- ===== src/Cursor/Expiry/Move.antt =====
-- `UpdatePositionAfterExpiration` and `calculateExpiredCount` (queue/consumer.go) behind a call of
-- `RemoveExpiredData` that removed something: where a position goes, and what is before it there.
use mpmc_queue.Prelude.{
  ℕ, suc, ◌+◌, ◌-◌, ◌≤◌, ◌<◌, ◌≡◌, refl, ap, sym, ◌∙◌, inl, inr, Option, none, some, List, ◌++◌,
  arith, length, drop, lt-or-le, le→not_ltb, lt→ltb,
}
use mpmc_queue.Prelude.Int.{ℤ}
use mpmc_queue.ChunkedList.{ChunkedList, ChunkRemovalInfo, get_first_element}
use mpmc_queue.ChunkedList.Links.{contents, unread, contents_head}
use mpmc_queue.Cursor.{
  Cursor, at, at_start, count_missed, calculate_expired_count, raised_index, update_position,
}
use mpmc_queue.Cursor.Unread.{IsIn, IsCursor, unread_at}
use mpmc_queue.Cursor.Look.{live_from_zero}
use mpmc_queue.Cursor.Expiry.{after_expiry, Expiry}

-- A reader moved from one position to another: the new one is in the new list, what is before it
-- there is what was before it but for the first `missed` items, and there were as many.
abbrev pub Moves : ChunkedList → ChunkedList → ℕ → ℕ → ℕ → Cursor → Cursor → Type 0
Moves cl cl' first first' missed cur cur' =
    IsCursor cl' first' cur'
    × (unread_at cl' first' cur' ≡ drop missed (unread_at cl first cur))
    × (missed + length (unread_at cl' first' cur') ≡ length (unread_at cl first cur))

module _ (now ttl : ℤ) (cl cl' : ChunkedList) (first first' removed : ℕ)
    (infos : List ChunkRemovalInfo) (x : Expiry now ttl cl cl' first first' removed infos)
    (some_gone : 0 < removed) where
  abbrev moved : Cursor → Cursor
  moved cur = update_position cl' removed (get_first_element cl') infos cur

  first-some : first' < cl'.allocated → get_first_element cl' ≡ some first'
  first-some h =
      let n : cl'.allocated - first' ≡ suc (cl'.allocated - suc first') = omega arith in
      rw (x.linked.in_list, n)

  first-none : cl'.allocated ≤ first' → get_first_element cl' ≡ none
  first-none h = let n : cl'.allocated - first' ≡ 0 = omega arith in rw (x.linked.in_list, n)

  module _ (e i : ℕ) (p : IsIn cl first e i) where
    -- The new position has before it what expiration leaves.
    Moves-left :
        (cur' : Cursor)
        → moved (at e i) ≡ cur'
        → IsCursor cl' first' cur'
        → unread_at cl' first' cur' ≡ after_expiry cl' first' e i infos
        → Moves cl cl' first first' (count_missed e i infos) (at e i) (moved (at e i))
    Moves-left cur' m q u =
        let (gone, counted) = x.reader e i p in
        rw m (q, u ∙ gone, omega (arith, counted, ap length u))

    moved-none : cl'.allocated ≤ first' → moved (at e i) ≡ at_start
    unfolding update_position
    moved-none h = ground (arith, first-none h)

    moved-first : first' < cl'.allocated → e < first' → moved (at e i) ≡ at first' 0
    unfolding update_position
    moved-first h lt = ground (arith, first-some h, x.linked.retired e lt)

    moved-on : first' < cl'.allocated → first' ≤ e → moved (at e i) ≡ at e (raised_index e i infos)
    unfolding update_position
    moved-on h le =
        ground (arith, first-some h, (x.linked.filled e le (omega (arith, x.made, p.made))).in_use)

    Moves-at : Moves cl cl' first first' (count_missed e i infos) (at e i) (moved (at e i))
    Moves-at = elim (lt-or-le first' cl'.allocated) [
      | inr none_left ↦
          let lt : e < first' = omega (arith, p.made, x.made) in
          Moves-left at_start (moved-none none_left) tt (rw (lt→ltb e first' lt) refl)
      | inl some_left ↦ elim (lt-or-le e first') [
        | inl lt ↦
            let head : contents cl' first' ≡ unread cl' first' 0 =
              contents_head cl' first' some_left
              ∙ ap (λ ds. ds ++ contents cl' (suc first'))
                  (sym (live_from_zero (cl'.chunks first'))) in
            Moves-left (at first' 0) (moved-first some_left lt)
              (record { from_first = omega arith; made = some_left; up_to_size = omega arith })
              (rw (lt→ltb e first' lt) (sym head))
        | inr le ↦
            Moves-left (at e (raised_index e i infos)) (moved-on some_left le) (x.position e i p le)
              (rw (le→not_ltb e first' le) refl)
      ]
    ]

  moves_lem :
      (o : Option ℕ) (i : ℕ)
      → let cur : Cursor = record { chunk_element = o; index_in_chunk = i } in
        IsCursor cl first cur
        → Moves cl cl' first first' (calculate_expired_count cur infos) cur (moved cur)
  unfolding update_position calculate_expired_count
  moves_lem (some e) i p = Moves-at e i p
  moves_lem none i p = (
    tt,
    x.dropped ∙ ap (λ k. drop k (contents cl first)) (sym x.total),
    omega (arith, x.counted, x.total),
  )

  -- Where something was removed, a position in the list, or that of a reader that has not begun, moves to
  -- one in the new list; the reader has before it there what it had, but for as many items at the front
  -- as it is told that it missed.
  pub update_position-Moves :
      (cur : Cursor)
      → IsCursor cl first cur
      → Moves cl cl' first first'
          (calculate_expired_count cur infos)
          cur
          (update_position cl' removed (get_first_element cl') infos cur)
  update_position-Moves cur p = moves_lem cur.chunk_element cur.index_in_chunk p
