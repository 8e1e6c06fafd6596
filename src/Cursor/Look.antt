-- ===== src/Cursor/Look.antt =====
-- What a reader in the list sees, and what it has before it then.
use mpmc_queue.Prelude.{
  ℕ, suc, ◌+◌, ◌-◌, ◌≤◌, ◌<◌, ◌≡◌, ap, inl, inr, [], ◌∷◌, ◌++◌, arith, lt-or-le, max,
}
use mpmc_queue.Data.{QueueData}
use mpmc_queue.Chunk.{ChunkNode, get}
use mpmc_queue.Chunk.Live.{live, live_from}
use mpmc_queue.ChunkedList.{ChunkedList}
use mpmc_queue.ChunkedList.Links.{IsFilled, IsLinked, unread, contents, contents_head}
use mpmc_queue.Cursor.{look, item, behind_head, next_chunk, last_end}
use mpmc_queue.Cursor.Unread.{IsIn}

-- The four things that a position in the list can be.
pub data Sees (cl : ChunkedList) (first e i : ℕ) : Type 0 where
  sees_item :
      (d : QueueData)
      → look cl e i ≡ item d
      → unread cl e i ≡ d ∷ unread cl e (i + 1)
      → IsIn cl first e (i + 1)
      → Sees cl first e i
  sees_expired :
      look cl e i ≡ behind_head (cl.chunks e).head
      → i < (cl.chunks e).head
      → (cl.chunks e).head ≤ (cl.chunks e).size
      → Sees cl first e i
  sees_next :
      look cl e i ≡ next_chunk (suc e)
      → unread cl e i ≡ unread cl (suc e) 0
      → suc e < cl.allocated
      → IsIn cl first (suc e) 0
      → Sees cl first e i
  sees_end : look cl e i ≡ last_end → unread cl e i ≡ [] → Sees cl first e i

pub live_from_zero : (c : ChunkNode) → live_from c 0 ≡ live c
live_from_zero c = let m : max 0 c.head ≡ c.head = omega arith in rw m

-- An index that has expired reads as the head does.
pub live_from-expired :
    (c : ChunkNode) (i j : ℕ) → i ≤ c.head → j ≤ c.head → live_from c i ≡ live_from c j
live_from-expired c i j h k =
    let m : max i c.head ≡ c.head = omega arith in
    let n : max j c.head ≡ c.head = omega arith in rw (m, n)

live_from_item :
    (c : ChunkNode) (i : ℕ)
    → c.head ≤ i
    → i < c.size
    → live_from c i ≡ c.items i ∷ live_from c (i + 1)
live_from_item c i h k =
    let m : max i c.head ≡ i = omega arith in
    let n : max (i + 1) c.head ≡ suc i = omega arith in
    let s : c.size - i ≡ suc (c.size - suc i) = omega arith in rw (m, n, s)

live_from_end : (c : ChunkNode) (i : ℕ) → c.size ≤ i → live_from c i ≡ []
live_from_end c i h = let s : c.size - max i c.head ≡ 0 = omega arith in rw s

module _ (cl : ChunkedList) (first e i : ℕ) (v : IsLinked cl first) (p : IsIn cl first e i) where
  f : IsFilled cl.allocated e (cl.chunks e)
  f = v.filled e p.from_first p.made

  -- A reader in the list never meets a chunk that has left it.
  pub look-Sees : Sees cl first e i
  unfolding look get
  look-Sees = elim (lt-or-le i (cl.chunks e).size) [
    | inl lt ↦ elim (lt-or-le i (cl.chunks e).head) [
      | inl old ↦ sees_expired (ground (arith, f)) old (omega (arith, f.held))
      | inr new ↦
          sees_item ((cl.chunks e).items i) (ground (arith, f))
            (ap (λ ds. ds ++ contents cl (suc e)) (live_from_item (cl.chunks e) i new lt))
            (record { from_first = p.from_first; made = p.made; up_to_size = omega arith })
    ]
    | inr end ↦ elim (lt-or-le (suc e) cl.allocated) [
      | inl more ↦
          sees_next (ground (arith, f))
            (rw (
              live_from_end (cl.chunks e) i end,
              contents_head cl (suc e) more,
              live_from_zero (cl.chunks (suc e)),
            ))
            more
            (record {
              from_first = omega (arith, p.from_first);
              made = more;
              up_to_size = omega arith;
            })
      | inr last ↦
          let n : cl.allocated - suc e ≡ 0 = omega arith in
          sees_end (ground (arith, f)) (rw (live_from_end (cl.chunks e) i end, n))
    ]
  ]
