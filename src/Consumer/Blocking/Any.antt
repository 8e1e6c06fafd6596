-- ===== src/Consumer/Blocking/Any.antt =====
-- One `TryRead` of either kind of consumer (queue/consumer.go, queue/consumer_group.go), against the
-- items that the consumer or its group has before it.
use mpmc_queue.Prelude.{
  ℕ, ◌≡◌, refl, ap, sym, ◌∙◌, ◌⊎◌, inl, inr, Bool, true, false, ◌||◌, Option, none, some, List, [],
  ◌∷◌, arith, Bool-cases, whenever, otherwise,
}
use mpmc_queue.Prelude.Int.{ℤ}
use mpmc_queue.Data.{QueueData}
use mpmc_queue.ChunkedList.{ChunkedList}
use mpmc_queue.ChunkedList.Links.{IsLinked}
use mpmc_queue.Cursor.{Cursor}
use mpmc_queue.Cursor.Unread.{IsCursor, unread_at}
use mpmc_queue.Reader.{begin_read}
use mpmc_queue.Reader.Read.{begin_read-Reads}
use mpmc_queue.ConsumerGroup
use mpmc_queue.ConsumerGroup.{ConsumerGroup, group_reader}
use mpmc_queue.ConsumerGroup.Laws.{group_reader-ReaderLaws}
use mpmc_queue.Consumer.{
  Consumer, consumer_reader, note_read, add_to_history, try_read, try_read_in_group,
}
use mpmc_queue.Consumer.Laws.{consumer_reader-ReaderLaws}
use mpmc_queue.Consumer.Blocking.{View, read_any}

-- The position that a view's reads move: the group's, for a member.
abbrev pub position_of : View → Cursor
position_of s = elim s.group [ none ↦ s.consumer.cursor | some g ↦ g.cursor ]

-- What stands before the reader in the list that a view finds.
abbrev pub ahead : View → ℕ → List QueueData
ahead s first = unread_at s.items first (position_of s)

-- The reader, its group or, for a member, the queue is closed, so that `TryRead` returns nil.
abbrev pub is_shut : View → Bool
is_shut s = s.consumer.closed || elim s.group [ none ↦ false | some g ↦ s.queue_closed || g.closed ]

-- A list that hangs together, and a position in it.
pub record IsPlaced (s : View) (first : ℕ) : Type 0 where
  pub linked : IsLinked s.items first
  pub position : IsCursor s.items first (position_of s)

-- One read of a view leaves its list alone, and either finds nothing, where the reader is closed or at
-- the end, or takes the first item.
abbrev pub Turn : View → ℕ → Option QueueData → View → Type 0
Turn s first out s' =
    (s'.items ≡ s.items)
    × IsPlaced s' first
    × (((out ≡ none)
          × (ahead s' first ≡ ahead s first)
          × ((is_shut s ≡ true) ⊎ (ahead s first ≡ [])))
        ⊎ ((d : QueueData) × (out ≡ some d)
            × (is_shut s ≡ false)
            × (is_shut s' ≡ false)
            × (ahead s first ≡ d ∷ ahead s' first)))

abbrev pub Turned : View → ℕ → Option (Option QueueData × View) → Type 0
Turned s first result =
    (out : Option QueueData) × (s' : View) × (result ≡ some (out, s')) × Turn s first out s'

module _ (now : ℤ) (queue_closed : Bool) (cl : ChunkedList) (first : ℕ) (v : IsLinked cl first)
    (c : Consumer) where
  abbrev alone : Consumer → View
  alone b = record {
    now = now;
    queue_closed = queue_closed;
    items = cl;
    consumer = b;
    group = none;
  }

  alone-Turned : IsCursor cl first c.cursor → Turned (alone c) first (read_any (alone c))
  unfolding read_any try_read note_read add_to_history
  alone-Turned p = elim (Bool-cases c.closed) [
    | inl shut ↦ (
      none,
      alone c,
      rw (shut, read_any) refl,
      (refl, record { linked = v; position = p }, inl (refl, refl, inl (ground (arith, shut)))),
    )
    | inr open_ ↦
        let e : try_read now cl c ≡ begin_read (consumer_reader now) cl c = ground (arith, open_) in
        let (cur, q, r) =
          begin_read-Reads (consumer_reader now) (consumer_reader-ReaderLaws now) cl first v c p in
        elim r [
          | inl (u, w, e') ↦ (
            none,
            alone (record c { cursor = cur }),
            rw (e ∙ e', read_any) refl,
            (refl, record { linked = v; position = q }, inl (refl, w ∙ sym u, inr u)),
          )
          | inr (d, u, e') ↦ (
            some d,
            alone (note_read now d (record c { cursor = cur })),
            rw (e ∙ e', read_any) refl,
            (
              refl,
              record { linked = v; position = q },
              inr (d, refl, ground (arith, open_), ground (arith, open_), u),
            ),
          )
        ]
  ]

  abbrev together : ConsumerGroup → Consumer → View
  together g b = record {
    now = now;
    queue_closed = queue_closed;
    items = cl;
    consumer = b;
    group = some g;
  }

  -- What a member makes of its group's read.
  abbrev noted :
      Option (Option QueueData × ConsumerGroup)
      → Option (Option QueueData × ConsumerGroup × Consumer)
  noted none = none
  noted (some (out, g')) = some (out, g', elim out [ none ↦ c | some d ↦ note_read now d c ])

  together-Turned :
      (g : ConsumerGroup)
      → IsCursor cl first g.cursor
      → Turned (together g c) first (read_any (together g c))
  unfolding read_any try_read_in_group ConsumerGroup.try_read note_read add_to_history
  together-Turned g p = elim (Bool-cases c.closed) [
    | inl shut ↦ (
      none,
      together g c,
      rw (shut, read_any) refl,
      (refl, record { linked = v; position = p }, inl (refl, refl, inl (ground (arith, shut)))),
    )
    | inr open_ ↦ elim (Bool-cases (queue_closed || g.closed)) [
      | inl shut ↦
          let e : try_read_in_group now queue_closed cl g c ≡ some (none, g, c) =
            otherwise _ _ open_ ∙ ap noted (whenever _ _ shut) in
          (
            none,
            together g c,
            rw (e, read_any) refl,
            (refl, record { linked = v; position = p }, inl (refl, refl, inl (rw (open_) shut))),
          )
      | inr serving ↦
          let (cur, q, r) = begin_read-Reads group_reader group_reader-ReaderLaws cl first v g p in
          elim r [
            | inl (u, w, e') ↦
                let e : try_read_in_group now queue_closed cl g c
                    ≡ some (none, record g { cursor = cur }, c) =
                  otherwise _ _ open_ ∙ ap noted (otherwise _ _ serving ∙ e') in
                (
                  none,
                  together (record g { cursor = cur }) c,
                  rw (e, read_any) refl,
                  (refl, record { linked = v; position = q }, inl (refl, w ∙ sym u, inr u)),
                )
            | inr (d, u, e') ↦
                let e : try_read_in_group now queue_closed cl g c
                    ≡ some (some d, record g { cursor = cur }, note_read now d c) =
                  otherwise _ _ open_ ∙ ap noted (otherwise _ _ serving ∙ e') in
                (
                  some d,
                  together (record g { cursor = cur }) (note_read now d c),
                  rw (e, read_any) refl,
                  (
                    refl,
                    record { linked = v; position = q },
                    inr (d, refl, rw open_ serving, rw open_ serving, u),
                  ),
                )
          ]
    ]
  ]

pub read_any-Turned : (s : View) (first : ℕ) → IsPlaced s first → Turned s first (read_any s)
read_any-Turned s first p = by_group s.group p.position
  where
    by_group :
        (g : Option ConsumerGroup)
        → IsCursor s.items first (position_of (record s { group = g }))
        → Turned (record s { group = g }) first (read_any (record s { group = g }))
    by_group none q = alone-Turned s.now s.queue_closed s.items first p.linked s.consumer q
    by_group (some g) q = together-Turned s.now s.queue_closed s.items first p.linked s.consumer g q
