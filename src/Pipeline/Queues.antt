-- ===== src/Pipeline/Queues.antt =====
-- The consumers and groups of a queue as what a stage of the pipeline (examples/patterns/data_pipeline.go)
-- reads from.
use mpmc_queue.Prelude.{
  ◌⊎◌, whenever, if◌then◌else◌, ℕ, ◌<◌, ◌≡◌, ◌↔◌, refl, sym, ap, ◌∙◌, inl, inr, Bool, true, false,
  Option, none, some, List, [], ◌∷◌, map, head?, tail, length, arith, otherwise, subst, ◌||◌,
}
use mpmc_queue.Prelude.Int.{ℤ}
use mpmc_queue.Payload.{Payload}
use mpmc_queue.Data.{QueueData}
use mpmc_queue.ChunkedList.{ChunkedList}
use mpmc_queue.ChunkedList.Links.{IsLinked}
use mpmc_queue.ChunkedList.Totals.{IsCounted}
use mpmc_queue.Cursor.Unread.{IsCursor, unread_at}
use mpmc_queue.Reader.{begin_read}
use mpmc_queue.Reader.Read.{begin_read-Reads}
use mpmc_queue.Consumer
use mpmc_queue.Consumer.{Consumer, note_read}
use mpmc_queue.Consumer.Batch.{
  IsReady, try_read-Reads, IsReady-moved, IsReady-note_read, unread-note_read,
}
use mpmc_queue.Consumer.Unread.{more_at_iff}
use mpmc_queue.ConsumerGroup
use mpmc_queue.ConsumerGroup.{ConsumerGroup, group_reader, more_at}
use mpmc_queue.ConsumerGroup.Laws.{group_reader-ReaderLaws}
use mpmc_queue.Pipeline.Upstream.{Source, SourceLaws, is_nonempty}

-- `data.Payload`, where there is an item.
abbrev pub payload_of : Option QueueData → Option Payload
payload_of none = none
payload_of (some d) = some d.payload

abbrev pub consumer_read :
    ChunkedList
    → Consumer
    → Option (Option QueueData × Consumer)
    → Option Payload × (ChunkedList × Consumer)
consumer_read cl c none = (none, (cl, c))
consumer_read cl c (some (o, c')) = (payload_of o, (cl, c'))

abbrev pub consumer_source : ℤ → Source (ChunkedList × Consumer) Payload
consumer_source now = record {
  try_read = λ s. consumer_read s.0 s.1 (Consumer.try_read now s.0 s.1);
  has_more_data = λ s. Consumer.has_more_data s.0 s.1;
}

abbrev payloads : List QueueData → List Payload
payloads ds = map (λ d. d.payload) ds

nonempty_iff : (b : Bool) (l : List Payload) → (b ≡ true) ↔ (0 < length l) → b ≡ is_nonempty l
nonempty_iff b [] h = ground (arith, h)
nonempty_iff b (x ∷ l) h = ground (arith, h)

length-payloads : (ds : List QueueData) → length (payloads ds) ≡ length ds
length-payloads [] = refl
length-payloads (d ∷ ds) = omega (arith, length-payloads ds)

module _ (first : ℕ) where
  abbrev pub IsOpenSource : ChunkedList × Consumer → Type 0
  IsOpenSource (cl, c) = IsLinked cl first × IsCounted cl first × IsReady cl first c

  abbrev pub before_consumer : ChunkedList × Consumer → List Payload
  before_consumer (cl, c) = payloads (unread_at cl first c.cursor)

  abbrev Took : ℤ → ChunkedList → Consumer → Option Payload × (ChunkedList × Consumer) → Type 0
  Took now cl c (o, s) =
      IsOpenSource s
      × (o ≡ head? (before_consumer (cl, c)))
      × (before_consumer s ≡ tail (before_consumer (cl, c)))

  consumer-Took :
      (now : ℤ) (cl : ChunkedList) (c : Consumer)
      → IsOpenSource (cl, c)
      → Took now cl c (consumer_read cl c (Consumer.try_read now cl c))
  consumer-Took now cl c (v, counted, ready) =
      let (cur, p, q) = try_read-Reads now cl first v c ready in
      elim q [
        | inl (u, w, e) ↦ rw e (
          (v, counted, IsReady-moved now cl first v c cur ready p),
          ap (λ l. head? (payloads l)) (sym u),
          ap payloads w ∙ ap (λ l. tail (payloads l)) (sym u),
        )
        | inr (d, u, e) ↦
            let c' : Consumer = record c { cursor = cur } in
            rw e (
              (
                v,
                counted,
                IsReady-note_read now cl first v c' d (IsReady-moved now cl first v c cur ready p),
              ),
              ap (λ l. head? (payloads l)) (sym u),
              ap payloads (unread-note_read now cl first v c' d)
                  ∙ ap (λ l. tail (payloads l)) (sym u),
            )
      ]

  consumer-more :
      (now : ℤ) (cl : ChunkedList) (c : Consumer)
      → IsOpenSource (cl, c)
      → Consumer.has_more_data cl c ≡ is_nonempty (before_consumer (cl, c))
  unfolding Consumer.has_more_data
  consumer-more now cl c (v, counted, ready) =
      otherwise false (more_at cl c.cursor) ready.open_
      ∙ nonempty_iff (more_at cl c.cursor) (before_consumer (cl, c)) (
          rw (length-payloads (unread_at cl first c.cursor))
            (more_at_iff cl first v counted c.cursor ready.position))

  pub consumer_source-SourceLaws :
      (now : ℤ) → SourceLaws (consumer_source now) IsOpenSource before_consumer
  consumer_source-SourceLaws now = record {
    valid = λ s h. (consumer-Took now s.0 s.1 h).0;
    first = λ s h. (consumer-Took now s.0 s.1 h).1;
    others = λ s h. (consumer-Took now s.0 s.1 h).2;
    more = λ s h. consumer-more now s.0 s.1 h;
  }

-- What the members of a group share. `queue_closed` is that the queue is.
pub record GroupView : Type 0 where
  pub queue_closed : Bool
  pub items : ChunkedList
  pub group : ConsumerGroup

abbrev pub group_read :
    GroupView → Option (Option QueueData × ConsumerGroup) → Option Payload × GroupView
group_read s none = (none, s)
group_read s (some (o, g)) = (payload_of o, record s { group = g })

abbrev pub group_source : Source GroupView Payload
group_source = record {
  try_read = λ s. group_read s (ConsumerGroup.try_read s.queue_closed s.items s.group);
  has_more_data = λ s. ConsumerGroup.has_more_data s.queue_closed s.items s.group;
}

-- A closed queue gives its groups nothing.
pub closed-read :
    (s : GroupView)
    → s.queue_closed ≡ true
    → (group_source.try_read s ≡ (none, s)) × (group_source.has_more_data s ≡ false)
unfolding ConsumerGroup.try_read ConsumerGroup.has_more_data
closed-read s h =
    let shut : (s.queue_closed || s.group.closed) ≡ true = ground (arith, h) in
    (ap (group_read s) (whenever _ _ shut), whenever _ _ shut)

module _ (first : ℕ) where
  pub record IsOpenGroup (s : GroupView) : Type 0 where
    pub linked : IsLinked s.items first
    pub counted : IsCounted s.items first
    pub position : IsCursor s.items first s.group.cursor
    pub queue_open : s.queue_closed ≡ false
    pub group_open : s.group.closed ≡ false

  abbrev pub before_group : GroupView → List Payload
  before_group s = payloads (unread_at s.items first s.group.cursor)

  abbrev TookOf : GroupView → Option Payload × GroupView → Type 0
  TookOf s (o, s') =
      IsOpenGroup s' × (o ≡ head? (before_group s)) × (before_group s' ≡ tail (before_group s))

  group-TookOf :
      (s : GroupView)
      → IsOpenGroup s
      → TookOf s (group_read s (ConsumerGroup.try_read s.queue_closed s.items s.group))
  unfolding ConsumerGroup.try_read
  group-TookOf s h =
      let begun : ConsumerGroup.try_read s.queue_closed s.items s.group
          ≡ begin_read group_reader s.items s.group =
        ground (arith, h.queue_open, h.group_open) in
      let (cur, p, q) =
        begin_read-Reads group_reader group_reader-ReaderLaws s.items first h.linked s.group
          h.position in
      let moved : IsOpenGroup (record s { group = record s.group { cursor = cur } }) = record {
        linked = h.linked;
        counted = h.counted;
        position = p;
        queue_open = h.queue_open;
        group_open = h.group_open;
      } in
      subst (λ r. TookOf s (group_read s r)) (sym begun)
        (elim q [
          | inl (u, w, e) ↦ rw e (
            moved,
            ap (λ l. head? (payloads l)) (sym u),
            ap payloads w ∙ ap (λ l. tail (payloads l)) (sym u),
          )
          | inr (d, u, e) ↦
              rw e
                (moved, ap (λ l. head? (payloads l)) (sym u), ap (λ l. tail (payloads l)) (sym u))
        ])

  group-more :
      (s : GroupView)
      → IsOpenGroup s
      → ConsumerGroup.has_more_data s.queue_closed s.items s.group ≡ is_nonempty (before_group s)
  unfolding ConsumerGroup.has_more_data
  group-more s h =
      let open_ : (s.queue_closed || s.group.closed) ≡ false =
        ground (arith, h.queue_open, h.group_open) in
      otherwise false (more_at s.items s.group.cursor) open_
      ∙ nonempty_iff (more_at s.items s.group.cursor) (before_group s) (
          rw (length-payloads (unread_at s.items first s.group.cursor))
            (more_at_iff s.items first h.linked h.counted s.group.cursor h.position))

  -- A group of a queue that is open, or that has been closed, which gives its members nothing more.
  abbrev pub IsGroup : GroupView → Type 0
  IsGroup s = (s.queue_closed ≡ true) ⊎ IsOpenGroup s

  abbrev pub left_to_group : GroupView → List Payload
  left_to_group s = if s.queue_closed then [] else before_group s

  abbrev Takes : GroupView → Option Payload × GroupView → Type 0
  Takes s (o, s') =
      IsGroup s' × (o ≡ head? (left_to_group s)) × (left_to_group s' ≡ tail (left_to_group s))

  left-open : (s : GroupView) → s.queue_closed ≡ false → left_to_group s ≡ before_group s
  left-open s open_ = otherwise _ _ open_

  group-Takes : (s : GroupView) → IsGroup s → Takes s (group_source.try_read s)
  group-Takes s (inl shut) =
      let nothing_left : left_to_group s ≡ [] = whenever _ _ shut in
      subst (Takes s) (sym (closed-read s shut).0)
        (inl shut, ap head? (sym nothing_left), nothing_left ∙ ap tail (sym nothing_left))
  group-Takes s (inr h) =
      let (h', o, rest) = group-TookOf s h in
      let s' = (group_source.try_read s).1 in
      (
        inr h',
        o ∙ ap head? (sym (left-open s h.queue_open)),
        left-open s' h'.queue_open ∙ rest ∙ ap tail (sym (left-open s h.queue_open)),
      )

  group-still_more :
      (s : GroupView) → IsGroup s → group_source.has_more_data s ≡ is_nonempty (left_to_group s)
  group-still_more s (inl shut) =
      (closed-read s shut).1 ∙ ap is_nonempty (sym (whenever [] (before_group s) shut))
  group-still_more s (inr h) = group-more s h ∙ ap is_nonempty (sym (left-open s h.queue_open))

  pub group_source-SourceLaws : SourceLaws group_source IsGroup left_to_group
  group_source-SourceLaws = record {
    valid = λ s h. (group-Takes s h).0;
    first = λ s h. (group-Takes s h).1;
    others = λ s h. (group-Takes s h).2;
    more = λ s h. group-still_more s h;
  }
