-- ===== src/Consumer/Batch.antt =====
-- `TryRead`, `TryReadBatch` and `TryReadWhere` of queue/consumer.go against the list of the items that
-- the consumer has before it.
use mpmc_queue.Prelude.{
  ℕ, zero, suc, ◌+◌, ◌-◌, ◌*◌, ◌≤◌, ◌<◌, ◌≡◌, refl, ap, sym, ◌∙◌, inl, inr, Bool, true, false,
  Option, none, some, List, [], ◌∷◌, arith, length, length-append, length-cells, max, take, drop,
  Bool-cases, if◌then◌else◌,
}
use mpmc_queue.Prelude.Int.{ℤ, pos, negsuc, pos_part}
use mpmc_queue.Data.{QueueData}
use mpmc_queue.ChunkedList.{ChunkedList}
use mpmc_queue.ChunkedList.Links.{IsLinked, contents}
use mpmc_queue.ChunkedList.Totals.{length-contents_of}
use mpmc_queue.Chunk.{chunk_capacity}
use mpmc_queue.Chunk.Live.{live_from}
use mpmc_queue.Cursor.{Cursor}
use mpmc_queue.Cursor.Unread.{IsCursor, unread_at}
use mpmc_queue.Reader.{begin_read}
use mpmc_queue.Reader.Read.{Reads, begin_read-Reads}
use mpmc_queue.Consumer.{
  Consumer, consumer_reader, note_read, add_to_history, try_read, read_up_to, try_read_batch,
  read_until, try_read_where,
}
use mpmc_queue.Consumer.Laws.{consumer_reader-ReaderLaws}

-- A consumer that may read: it is open, and its position is in the list.
pub record IsReady (cl : ChunkedList) (first : ℕ) (c : Consumer) : Type 0 where
  pub position : IsCursor cl first c.cursor
  pub open_ : c.closed ≡ false
  pub alone : c.group ≡ none

-- The first item of a list that a predicate holds of, and the items behind it.
abbrev pub first_match : (QueueData → Bool) → List QueueData → Option QueueData × List QueueData
first_match predicate [] = (none, [])
first_match predicate (d ∷ ds) = if predicate d then (some d, ds) else first_match predicate ds

first_match-hit :
    (predicate : QueueData → Bool) (d : QueueData) (ds : List QueueData)
    → predicate d ≡ true
    → first_match predicate (d ∷ ds) ≡ (some d, ds)
first_match-hit predicate d ds h = rw h

first_match-miss :
    (predicate : QueueData → Bool) (d : QueueData) (ds : List QueueData)
    → predicate d ≡ false
    → first_match predicate (d ∷ ds) ≡ first_match predicate ds
first_match-miss predicate d ds h = rw h

module _ (now : ℤ) (cl : ChunkedList) (first : ℕ) (v : IsLinked cl first) where
  -- TryRead of an open consumer without a group, whose position is in a linked list or which has
  -- not begun, ends; it returns the first item that the consumer has before it and goes on by that
  -- item, or nil where there is none.
  pub try_read-Reads :
      (c : Consumer)
      → IsReady cl first c
      → Reads (consumer_reader now) cl first c (try_read now cl c)
  unfolding try_read
  try_read-Reads c ready =
      let e : try_read now cl c ≡ begin_read (consumer_reader now) cl c =
        ground (arith, ready.open_) in
      rw e (
        begin_read-Reads (consumer_reader now) (consumer_reader-ReaderLaws now) cl first v c
          ready.position)

  pub IsReady-moved :
      (c : Consumer) (cur : Cursor)
      → IsReady cl first c
      → IsCursor cl first cur
      → IsReady cl first (record c { cursor = cur })
  IsReady-moved c cur ready p = record { position = p; open_ = ready.open_; alone = ready.alone }

  pub IsReady-note_read :
      (c : Consumer) (d : QueueData) → IsReady cl first c → IsReady cl first (note_read now d c)
  unfolding note_read add_to_history
  IsReady-note_read c d ready = record {
    position = ready.position;
    open_ = ready.open_;
    alone = ready.alone;
  }

  pub unread-note_read :
      (c : Consumer) (d : QueueData)
      → unread_at cl first (note_read now d c).cursor ≡ unread_at cl first c.cursor
  unfolding note_read add_to_history
  unread-note_read c d = refl

  -- A batch is the front of what the consumer has before it.
  abbrev pub Batch : ℕ → Consumer → Option (List QueueData × Consumer) → Type 0
  Batch n c result =
      (c' : Consumer) × (result ≡ some (take n (unread_at cl first c.cursor), c'))
      × (unread_at cl first c'.cursor ≡ drop n (unread_at cl first c.cursor))
      × IsReady cl first c'

  read_up_to-Batch : (n : ℕ) (c : Consumer) → IsReady cl first c → Batch n c (read_up_to now cl n c)
  unfolding read_up_to
  read_up_to-Batch zero c ready = (c, refl, refl, ready)
  read_up_to-Batch (suc n) c ready =
      let (cur, p, q) = try_read-Reads c ready in
      elim q [
        | inl (u, w, e) ↦ (
          record c { cursor = cur },
          rw (e, read_up_to) (rw u refl),
          rw u w,
          IsReady-moved c cur ready p,
        )
        | inr (d, u, e) ↦
            let c' = note_read now d (record c { cursor = cur }) in
            let same = unread-note_read (record c { cursor = cur }) d in
            let (c'', e', w, ready') =
              read_up_to-Batch n c' (IsReady-note_read _ d (IsReady-moved c cur ready p)) in
            (c'', rw (e, read_up_to) (rw (e', u, same) refl), rw (u, ← same) w, ready')
      ]

  abbrev pub Found : (QueueData → Bool) → Consumer → Option (Option QueueData × Consumer) → Type 0
  Found predicate c result =
      (c' : Consumer) × (result
        ≡ some ((first_match predicate (unread_at cl first c.cursor)).0, c'))
      × (unread_at cl first c'.cursor ≡ (first_match predicate (unread_at cl first c.cursor)).1)
      × IsReady cl first c'

  read_until-Found :
      (predicate : QueueData → Bool) (fuel : ℕ) (c : Consumer)
      → IsReady cl first c
      → length (unread_at cl first c.cursor) < fuel
      → Found predicate c (read_until now cl predicate fuel c)
  unfolding read_until
  read_until-Found predicate zero c ready h = absurd (omega arith)
  read_until-Found predicate (suc fuel) c ready h =
      let (cur, p, q) = try_read-Reads c ready in
      elim q [
        | inl (u, w, e) ↦ (
          record c { cursor = cur },
          rw (e, read_until) (rw u refl),
          rw u w,
          IsReady-moved c cur ready p,
        )
        | inr (d, u, e) ↦
            let c' = note_read now d (record c { cursor = cur }) in
            let same = unread-note_read (record c { cursor = cur }) d in
            let ready' = IsReady-note_read _ d (IsReady-moved c cur ready p) in
            let matches = first_match predicate in
            elim (Bool-cases (predicate d)) [
              | inl hit ↦
                  let m = ap matches u ∙ first_match-hit predicate d _ hit in
                  let stop : read_until now cl predicate (suc fuel) c ≡ some (some d, c') =
                    rw (e, read_until) (rw hit refl) in
                  (
                    c',
                    stop ∙ ap (λ t. some (t.0, c')) (sym m),
                    same ∙ ap (λ t. t.1) (sym m),
                    ready',
                  )
              | inr miss ↦
                  let m =
                    ap matches u ∙ first_match-miss predicate d _ miss ∙ ap matches (sym same) in
                  let next : read_until now cl predicate (suc fuel) c
                      ≡ read_until now cl predicate fuel c' =
                    rw (e, read_until) (rw miss refl) in
                  let (c'', e', w, ready'') =
                    read_until-Found predicate fuel c' ready'
                      (omega (arith, ap length u, ap length same)) in
                  (
                    c'',
                    next ∙ e' ∙ ap (λ t. some (t.0, c'')) (sym m),
                    w ∙ ap (λ t. t.1) (sym m),
                    ready'',
                  )
            ]
      ]

  -- TryReadBatch of a consumer that is ready to read ends, returns the first items before it, as
  -- many as the limit allows (none for a limit that is not positive), and leaves it ready, before
  -- the others.
  pub try_read_batch-Batch :
      (limit : ℤ) (c : Consumer)
      → IsReady cl first c
      → Batch (pos_part limit) c (try_read_batch now cl limit c)
  unfolding try_read_batch
  try_read_batch-Batch (pos zero) c ready = (c, refl, refl, ready)
  try_read_batch-Batch (pos (suc n)) c ready =
      let e : try_read_batch now cl (pos (suc n)) c ≡ read_up_to now cl (suc n) c = ground arith in
      rw e (read_up_to-Batch (suc n) c ready)
  try_read_batch-Batch (negsuc n) c ready = (c, ground arith, refl, ready)

  length-unread_at :
      (cur : Cursor) → IsCursor cl first cur → length (unread_at cl first cur) ≤ cl.allocated * 1000
  length-unread_at cur p = length_at cur.chunk_element cur.index_in_chunk p
    where
      within : (j : ℕ) → first ≤ j → j < cl.allocated → (cl.chunks j).size ≤ chunk_capacity
      within j lo hi = (v.filled j lo hi).within

      length_at :
          (o : Option ℕ) (i : ℕ)
          → IsCursor cl first (record { chunk_element = o; index_in_chunk = i })
          → length (unread_at cl first (record { chunk_element = o; index_in_chunk = i }))
            ≤ cl.allocated * 1000
      length_at none i p = omega (
        arith,
        v.started,
        length-contents_of cl.chunks first (cl.allocated - first)
            (λ j lo hi. within j lo (omega arith)),
      )
      length_at (some e) i p = omega (
        arith,
        length-append (live_from (cl.chunks e) i) (contents cl (suc e)),
        length-cells (cl.chunks e).items (max i (cl.chunks e).head)
            ((cl.chunks e).size - max i (cl.chunks e).head),
        within e p.from_first p.made,
        p.made,
        length-contents_of cl.chunks (suc e) (cl.allocated - suc e)
            (λ j lo hi. within j (omega (arith, p.from_first)) (omega (arith, p.made))),
      )

  -- TryReadWhere of a consumer that is ready to read ends; it returns the first item before the
  -- consumer that matches and no error, and drops the items in front of it, or finds none and
  -- drops them all.
  pub try_read_where-Found :
      (predicate : QueueData → Bool) (c : Consumer)
      → IsReady cl first c
      → (c' : Consumer) × (try_read_where now cl (some predicate) c
          ≡ some ((first_match predicate (unread_at cl first c.cursor)).0, none, c'))
        × (unread_at cl first c'.cursor ≡ (first_match predicate (unread_at cl first c.cursor)).1)
        × IsReady cl first c'
  unfolding try_read_where
  try_read_where-Found predicate c ready =
      let few = length-unread_at c.cursor ready.position in
      let (c', e, w, ready') =
        read_until-Found predicate (cl.allocated * 1000 + 1) c ready (omega arith) in
      (c', ground (arith, ready.alone, e), w, ready')
