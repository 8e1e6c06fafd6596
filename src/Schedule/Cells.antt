-- ===== src/Schedule/Cells.antt =====
-- The live cells of the chunks (queue/data.go, queue/chunked_list.go): what adds to them, and what takes
-- from them.
use mpmc_queue.Prelude.{
  ℕ, zero, suc, ◌+◌, ◌-◌, ◌≤◌, ◌<◌, ◌≡◌, ◌⊎◌, refl, inl, inr, List, [], ◌∷◌, arith, Bool-cases,
  Option-cases, update, leb,
}
use mpmc_queue.Prelude.Int.{ℤ}
use mpmc_queue.Data.{QueueData, is_expired, zero_data}
use mpmc_queue.Chunk.{ChunkNode, expire_from, remove_expired, is_empty, is_full, add}
use mpmc_queue.Memory.{can_add_data}
use mpmc_queue.ChunkedList.{
  ChunkedList, Clock, last_chunk, place, enqueue, expire_chunk, stops_at, expire_elements,
  remove_expired_data, add_to_chunk, get_last_element,
}

-- The cell `i` of a chunk is filled and has not expired, and holds `x`.
abbrev pub Live : ChunkNode → ℕ → QueueData → Type 0
Live c i x = (c.head ≤ i) × (i < c.size) × (c.items i ≡ x)

abbrev pub Cell : ChunkedList → ℕ → ℕ → QueueData → Type 0
Cell cl e i x = Live (cl.chunks e) i x

expire_from-Live :
    (clock : ℕ → ℤ) (ttl : ℤ) (n i : ℕ) (c : ChunkNode) (j : ℕ) (x : QueueData)
    → c.head ≡ i
    → Live (expire_from clock ttl n i c).0 j x
    → Live c j x
unfolding expire_from
expire_from-Live clock ttl zero i c j x h l = l
expire_from-Live clock ttl (suc n) i c j x h l =
    elim (Bool-cases (is_expired (clock i) ttl (c.items i))) [
      | inl old ↦
          let dropped : ChunkNode = record c {
            items = update c.items i zero_data;
            head = c.head + 1;
          } in
          let (lo, hi, same) =
            expire_from-Live clock ttl n (suc i) dropped j x (omega (arith, h))
              (rw (old, expire_from) at l) in
          (omega (arith, lo), hi, ground (arith, lo, h, same))
      | inr young ↦ rw (young, expire_from) at l
    ]

expire_chunk-Cell :
    (clock : Clock) (ttl : ℤ) (cl : ChunkedList) (k e j : ℕ) (x : QueueData)
    → Cell (expire_chunk clock ttl cl k).0 e j x
    → Cell cl e j x
unfolding expire_chunk remove_expired
expire_chunk-Cell clock ttl cl k e j x l =
    let c = (remove_expired (clock.at_index k) ttl (cl.chunks k)).0 in
    let kept =
      expire_from-Live (clock.at_index k) ttl ((cl.chunks k).size - (cl.chunks k).head)
        (cl.chunks k).head (cl.chunks k) j x refl in
    elim (Bool-cases (is_empty c)) [
      | inl gone ↦ let l' = rw (gone, expire_chunk) at l in ground (arith, kept, l')
      | inr left ↦ let l' = rw (left, expire_chunk) at l in ground (arith, kept, l')
    ]

expire_elements-Cell :
    (clock : Clock) (ttl : ℤ) (es : List ℕ) (cl : ChunkedList) (e j : ℕ) (x : QueueData)
    → Cell (expire_elements clock ttl es cl).0 e j x
    → Cell cl e j x
unfolding expire_elements
expire_elements-Cell clock ttl [] cl e j x l = l
expire_elements-Cell clock ttl (k ∷ es) cl e j x l =
    let cl' = (expire_chunk clock ttl cl k).0 in
    elim (Bool-cases (stops_at clock ttl k (cl'.chunks k))) [
      | inl stop ↦ expire_chunk-Cell clock ttl cl k e j x (rw (stop, expire_elements) at l)
      | inr on ↦
          expire_chunk-Cell clock ttl cl k e j x
            (expire_elements-Cell clock ttl es cl' e j x (rw (on, expire_elements) at l))
    ]

-- An expired item does not come back, and no other comes in.
pub remove_expired_data-Cell :
    (clock : Clock) (ttl : ℤ) (cl : ChunkedList) (e j : ℕ) (x : QueueData)
    → Cell (remove_expired_data clock ttl cl).0 e j x
    → Cell cl e j x
unfolding remove_expired_data
remove_expired_data-Cell clock ttl cl e j x l = expire_elements-Cell clock ttl cl.list cl e j x l

last_chunk-Cell :
    (cl : ChunkedList) (e j : ℕ) (x : QueueData) → Cell (last_chunk cl).0 e j x → Cell cl e j x
unfolding last_chunk
last_chunk-Cell cl e j x l = elim (Option-cases (get_last_element cl)) [
  | inl empty ↦ let l' = rw (empty, last_chunk) at l in ground (arith, l')
  | inr (k, there) ↦ elim (Bool-cases (is_full (cl.chunks k))) [
    | inl full ↦ let l' = rw (there, full, last_chunk) at l in ground (arith, l')
    | inr room ↦ rw (there, room, last_chunk) at l
  ]
]

-- What an `Enqueue` makes live is its item.
pub enqueue-Cell :
    (cl : ChunkedList) (d : QueueData) (e j : ℕ) (x : QueueData)
    → Cell (enqueue cl d).0 e j x
    → Cell cl e j x ⊎ (x ≡ d)
unfolding enqueue place add_to_chunk add
enqueue-Cell cl d e j x l = elim (Bool-cases (can_add_data cl.memory_tracker d)) [
  | inr cannot ↦ inl (rw (cannot, enqueue) at l)
  | inl can ↦
      let (cl', k) = last_chunk cl in
      let before = last_chunk-Cell cl e j x in
      elim (Bool-cases (leb 1000 (cl'.chunks k).size)) [
        | inl full ↦
            let l' = rw (can, enqueue, place, add_to_chunk, add, full) at l in inl (before l')
        | inr room ↦
            let l' = rw (can, enqueue, place, add_to_chunk, add, room) at l in
            ground (arith, l', before)
      ]
]
