-- ===== src/Cursor/Expiry.antt =====
-- `RemoveExpiredData` (queue/chunked_list.go) with a clock that stands still during the call, and what
-- a reader is told and left with (`calculateExpiredCount` and `UpdatePositionAfterExpiration`).
pub mod Notes
pub mod Kept
pub mod Gone
pub mod Remove
pub mod Move
pub mod Counted
use mpmc_queue.Prelude.{
  ℕ, zero, suc, ◌+◌, ◌-◌, ◌≤◌, ◌<◌, ◌≡◌, ◌≢◌, refl, ap, sym, subst, ◌∙◌, inl, inr, false, List, [],
  ◌∷◌, ◌++◌, append-nil, arith, cells, cells_congr, update_self, update_ne, length, length-append,
  length-cells, length-drop, drop, drop-append, drop-length-append, lt-or-le, ltb, le→not_ltb,
  lt→ltb, max, if◌then◌else◌,
}
use mpmc_queue.Prelude.Int.{ℤ}
use mpmc_queue.Data.{QueueData, is_expired}
use mpmc_queue.Chunk.{ChunkNode}
use mpmc_queue.Chunk.Live.{live, live_from}
use mpmc_queue.Chunk.Expire.{Expires, AllExpired}
use mpmc_queue.ChunkedList.{
  ChunkedList, ChunkRemovalInfo, instant, removal_info, expire_elements, remove_expired_data,
}
use mpmc_queue.ChunkedList.Links.{
  elements, IsLinked, contents, unread, contents_of_congr, contents_head,
}
use mpmc_queue.ChunkedList.Removal.{
  chunk, gone_items, list_kept, list_gone, expire_elements-kept, expire_elements-gone,
  chunk-Expires, IsLinked-kept, IsLinked-gone, contents-kept, contents-gone, contents-behind,
}
use mpmc_queue.Cursor.{count_removed, count_missed, raised_index}
use mpmc_queue.Cursor.Unread.{IsIn}

-- What is left of a list of items when the expired ones at its front are gone.
abbrev pub survivors : ℤ → ℤ → List QueueData → List QueueData
survivors now ttl [] = []
survivors now ttl (d ∷ ds) = if is_expired now ttl d then survivors now ttl ds else d ∷ ds

-- What a reader at index `i` of element `e` has before it afterwards.
abbrev pub after_expiry : ChunkedList → ℕ → ℕ → ℕ → List ChunkRemovalInfo → List QueueData
after_expiry cl first e i infos =
    if ltb e first then contents cl first else unread cl e (raised_index e i infos)

-- `first'` is the front of the list afterwards.
pub record Expiry (now ttl : ℤ) (cl cl' : ChunkedList) (first first' removed : ℕ)
    (infos : List ChunkRemovalInfo) : Type 0 where
  pub linked : IsLinked cl' first'
  pub onward : first ≤ first'
  pub made : cl'.allocated ≡ cl.allocated
  pub left : contents cl' first' ≡ survivors now ttl (contents cl first)
  pub dropped : contents cl' first' ≡ drop removed (contents cl first)
  pub counted : removed + length (contents cl' first') ≡ length (contents cl first)
  pub total : count_removed infos ≡ removed
  pub reader :
      (e i : ℕ)
      → IsIn cl first e i
      → (after_expiry cl' first' e i infos ≡ drop (count_missed e i infos) (unread cl e i))
        × (count_missed e i infos + length (after_expiry cl' first' e i infos)
            ≡ length (unread cl e i))
  pub position :
      (e i : ℕ) → IsIn cl first e i → first' ≤ e → IsIn cl' first' e (raised_index e i infos)
