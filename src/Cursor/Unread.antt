-- ===== src/Cursor/Unread.antt =====
-- What a reader has before it: the items from its position on, or all that the list holds if it has
-- not begun.
use mpmc_queue.Prelude.{ℕ, ◌≤◌, ◌<◌, none, some, List}
use mpmc_queue.Data.{QueueData}
use mpmc_queue.ChunkedList.{ChunkedList}
use mpmc_queue.ChunkedList.Links.{contents, unread}
use mpmc_queue.Cursor.{Cursor}

-- A position in the list: the element is in it, and the index is not past its items.
pub record IsIn (cl : ChunkedList) (first e i : ℕ) : Type 0 where
  pub from_first : first ≤ e
  pub made : e < cl.allocated
  pub up_to_size : i ≤ (cl.chunks e).size

abbrev pub IsCursor : ChunkedList → ℕ → Cursor → Type 0
IsCursor cl first cur = elim cur.chunk_element [
  | none ↦ Unit {0}
  | some e ↦ IsIn cl first e cur.index_in_chunk
]

abbrev pub unread_at : ChunkedList → ℕ → Cursor → List QueueData
unread_at cl first cur = elim cur.chunk_element [
  | none ↦ contents cl first
  | some e ↦ unread cl e cur.index_in_chunk
]
