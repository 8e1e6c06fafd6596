-- ===== src/Reader.antt =====
-- The loop of `TryRead`. `Consumer.TryRead` (queue/consumer.go) and `ConsumerGroup.TryRead`
-- (queue/consumer_group.go) have the same rounds over the same position; what differs between them is
-- an interface, `Reader`, that each fills.
pub mod Read
use mpmc_queue.Prelude.{
  ℕ, zero, suc, ◌+◌, ◌*◌, ◌≤◌, ◌<◌, ◌≡◌, Bool, true, false, Option, none, some, if◌then◌else◌,
}
use mpmc_queue.Data.{QueueData}
use mpmc_queue.ChunkedList.{ChunkedList, get_first_element}
use mpmc_queue.Cursor.{
  Cursor, at_start, at, Sight, pooled_chunk, item, behind_head, no_item, next_chunk, last_end, look,
  is_at, is_on,
}

-- `skip h i` is where a reader goes from an expired index `i` of a chunk with head `h`, and
-- `delivered` what it notes of an item that it returns.
pub record Reader (S : Type 0) : Type 0 where
  pub cursor_of : S → Cursor
  pub put_cursor : Cursor → S → S
  pub delivered : QueueData → S → S
  pub skip : ℕ → ℕ → ℕ

pub record ReaderLaws {S : Type 0} (r : Reader S) : Type 0 where
  pub cursor-put : (c : Cursor) (s : S) → r.cursor_of (r.put_cursor c s) ≡ c
  pub put-cursor : (s : S) → r.put_cursor (r.cursor_of s) s ≡ s
  pub put-put : (b c : Cursor) (s : S) → r.put_cursor b (r.put_cursor c s) ≡ r.put_cursor b s
  pub skip_onward : (h i : ℕ) → i < h → i < r.skip h i
  pub skip_within : (h i : ℕ) → i < h → r.skip h i ≤ h

pub data Round (S : Type 0) : Type 0 where
  finished : Option QueueData → S → Round S
  again : S → Round S

module _ {S : Type 0} (r : Reader S) where
  -- The end of a round that looked at index `i` of element `e`: the position is written only if it is
  -- still the one that the round began with.
  unfoldable pub settle : Sight → ℕ → ℕ → S → Round S
  settle pooled_chunk e i s =
      finished none (if is_on (r.cursor_of s) e then r.put_cursor at_start s else s)
  settle (item d) e i s =
      if is_at (r.cursor_of s) e i
      then finished (some d) (r.delivered d (r.put_cursor (at e (i + 1)) s))
      else again s
  settle (behind_head h) e i s =
      again (if is_at (r.cursor_of s) e i then r.put_cursor (at e (r.skip h i)) s else s)
  settle no_item e i s = finished none s
  settle (next_chunk f) e i s =
      again (if is_at (r.cursor_of s) e i then r.put_cursor (at f 0) s else s)
  settle last_end e i s = finished none s

  -- The rounds of a reader that runs undisturbed, on fuel; `none` is that the fuel ran out.
  unfoldable pub read_rounds : ChunkedList → ℕ → S → Option (Option QueueData × S)
  read_rounds cl zero s = none
  read_rounds cl (suc fuel) s = elim (r.cursor_of s).chunk_element [
    | none ↦ some (none, s)
    | some e ↦
        let i = (r.cursor_of s).index_in_chunk in
        elim (settle (look cl e i) e i s) [
          | finished out s' ↦ some (out, s')
          | again s' ↦ read_rounds cl fuel s'
        ]
  ]

  -- A round for each expired index of a chunk and two more are enough for a chunk.
  abbrev pub read_fuel : ChunkedList → ℕ
  read_fuel cl = (cl.allocated + 1) * 1002

  -- A first read begins at the front of the list; on an empty list it returns at once.
  unfoldable pub begin_read : ChunkedList → S → Option (Option QueueData × S)
  begin_read cl s = elim (r.cursor_of s).chunk_element [
    | some _ ↦ read_rounds cl (read_fuel cl) s
    | none ↦ elim (get_first_element cl) [
      | none ↦ some (none, s)
      | some f ↦ read_rounds cl (read_fuel cl) (r.put_cursor (at f 0) s)
    ]
  ]
