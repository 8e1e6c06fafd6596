-- ===== src/Schedule/Links.antt =====
-- The links between chunks lead to later elements (queue/chunked_list.go), also those of chunks that have
-- left the list, which a member may still hold.
use mpmc_queue.Prelude.{
  ℕ, zero, suc, ◌-◌, ◌≤◌, ◌<◌, ◌≡◌, refl, ap, sym, subst, ◌∙◌, inl, inr, some, List, [], ◌∷◌, arith,
  Bool-cases, update, whenever, otherwise, ◌==◌,
}
use mpmc_queue.Prelude.Int.{ℤ}
use mpmc_queue.Data.{QueueData, is_expired}
use mpmc_queue.Chunk.{ChunkNode, new_chunk_node, expire_from, remove_expired, is_empty}
use mpmc_queue.Chunk.Live.{added}
use mpmc_queue.Memory.{can_add_data}
use mpmc_queue.ChunkedList.{
  ChunkedList, Clock, push_back, link_next, last_chunk, place, enqueue, expire_chunk, stops_at,
  expire_elements, remove_expired_data,
}
use mpmc_queue.ChunkedList.Links.{IsLinked}
use mpmc_queue.ChunkedList.LastChunk.{last_chunk-IsOpen, last_chunk-cases}
use mpmc_queue.ChunkedList.Enqueue.{stored, add_to_chunk-stored, enqueue-cases}
use mpmc_queue.Queue.Enqueue.{IsLinked-tracker}

-- The next element, if a chunk has one, is a later one that has been made.
abbrev pub Forward : ChunkedList → Type 0
Forward cl = (e f : ℕ) → (cl.chunks e).next_element ≡ some f → (e < f) × (f < cl.allocated)

-- Stores with the same links.
abbrev SameLinks : (ℕ → ChunkNode) → (ℕ → ChunkNode) → Type 0
SameLinks g h = (e : ℕ) → (h e).next_element ≡ (g e).next_element

SameLinks-update :
    (g : ℕ → ChunkNode) (k : ℕ) (c : ChunkNode)
    → c.next_element ≡ (g k).next_element
    → SameLinks g (update g k c)
SameLinks-update g k c h e = ground (arith, h)

expire_from-next :
    (clock : ℕ → ℤ) (ttl : ℤ) (n i : ℕ) (c : ChunkNode)
    → (expire_from clock ttl n i c).0.next_element ≡ c.next_element
unfolding expire_from
expire_from-next clock ttl zero i c = refl
expire_from-next clock ttl (suc n) i c = elim (Bool-cases (is_expired (clock i) ttl (c.items i))) [
  | inl old ↦ rw (old, expire_from) (expire_from-next clock ttl n (suc i) _)
  | inr young ↦ rw (young, expire_from) refl
]

expire_chunk-links :
    (clock : Clock) (ttl : ℤ) (cl : ChunkedList) (k : ℕ)
    → SameLinks cl.chunks (expire_chunk clock ttl cl k).0.chunks
unfolding expire_chunk remove_expired
expire_chunk-links clock ttl cl k e =
    let c = (remove_expired (clock.at_index k) ttl (cl.chunks k)).0 in
    let kept =
      expire_from-next (clock.at_index k) ttl ((cl.chunks k).size - (cl.chunks k).head)
        (cl.chunks k).head (cl.chunks k) in
    elim (Bool-cases (is_empty c)) [
      | inl gone ↦ rw gone (ground (arith, kept))
      | inr left ↦ rw left (ground (arith, kept))
    ]

expire_elements-links :
    (clock : Clock) (ttl : ℤ) (es : List ℕ) (cl : ChunkedList)
    → SameLinks cl.chunks (expire_elements clock ttl es cl).0.chunks
unfolding expire_elements
expire_elements-links clock ttl [] cl e = refl
expire_elements-links clock ttl (k ∷ es) cl e =
    let cl' = (expire_chunk clock ttl cl k).0 in
    let here = expire_chunk-links clock ttl cl k e in
    elim (Bool-cases (stops_at clock ttl k (cl'.chunks k))) [
      | inl stop ↦ rw stop here
      | inr on ↦ rw on (expire_elements-links clock ttl es cl' e ∙ here)
    ]

pub Forward-remove_expired_data :
    (clock : Clock) (ttl : ℤ) (cl : ChunkedList)
    → (remove_expired_data clock ttl cl).0.allocated ≡ cl.allocated
    → Forward cl
    → Forward (remove_expired_data clock ttl cl).0
unfolding remove_expired_data
Forward-remove_expired_data clock ttl cl made v e f h =
    let (lt, lt') = v e f (sym (expire_elements-links clock ttl cl.list cl e) ∙ h) in
    (lt, omega (arith, made))

Forward-push_back : (cl : ChunkedList) → Forward cl → Forward (push_back cl)
Forward-push_back cl v e f h = elim (Bool-cases (e == cl.allocated)) [
  | inl new ↦ absurd (ground (arith, whenever new_chunk_node (cl.chunks e) new, h))
  | inr old ↦
      let (a, b) =
        v e f (sym (ap (λ c. c.next_element) (otherwise new_chunk_node (cl.chunks e) old)) ∙ h) in
      (a, omega arith)
]

Forward-link_next :
    (cl : ChunkedList) (k f : ℕ)
    → k < f
    → f < cl.allocated
    → Forward cl
    → Forward (link_next cl k f)
Forward-link_next cl k f lt made v e g h = elim (Bool-cases (e == k)) [
  | inl here ↦
      ground (arith, whenever (record (cl.chunks k) { next_element = some f }) (cl.chunks e) here)
  | inr there ↦ v e g (
      sym (
        ap (λ c. c.next_element)
          (otherwise (record (cl.chunks k) { next_element = some f }) (cl.chunks e) there))
      ∙ h)
]

Forward-stored : (cl : ChunkedList) (k : ℕ) (d : QueueData) → Forward cl → Forward (stored cl k d)
Forward-stored cl k d v e f h =
    v e f (sym (SameLinks-update cl.chunks k (added (cl.chunks k) d) refl e) ∙ h)

Forward-last_chunk :
    (cl : ChunkedList) (first : ℕ) → IsLinked cl first → Forward cl → Forward (last_chunk cl).0
Forward-last_chunk cl first v h = elim (last_chunk-cases cl first v) [
  | inl same ↦ subst Forward (sym same) h
  | inr (inl new) ↦ subst Forward (sym new) (Forward-push_back cl h)
  | inr (inr (behind, lt)) ↦ subst Forward (sym behind) (
      Forward-link_next (push_back cl) (cl.allocated - 1) cl.allocated (omega arith) (omega arith)
        (Forward-push_back cl h))
]

-- `Enqueue` leaves the links as they should be.
pub Forward-enqueue :
    (cl : ChunkedList) (first : ℕ) (d : QueueData)
    → IsLinked cl first
    → Forward cl
    → Forward (enqueue cl d).0
unfolding enqueue place
Forward-enqueue cl first d v h = elim (Bool-cases (can_add_data cl.memory_tracker d)) [
  | inl can ↦
      let (cl', e) = last_chunk cl in
      let (o, same) = last_chunk-IsOpen cl first v in
      let put = add_to_chunk-stored cl' first e d o "Failed to add data to chunk" in
      rw can (rw put (Forward-stored cl' e d (Forward-last_chunk cl first v h)))
  | inr cannot ↦ rw cannot h
]

-- It keeps the list linked, and its elements.
pub enqueue-IsLinked :
    (cl : ChunkedList) (first : ℕ) (d : QueueData)
    → IsLinked cl first
    → IsLinked (enqueue cl d).0 first × (cl.allocated ≤ (enqueue cl d).0.allocated)
enqueue-IsLinked cl first d v = elim (enqueue-cases cl first d v) [
  | inl (cl', e, v', a) ↦ rw e (v', a.grown)
  | inr (mt, needed, e) ↦ rw e (IsLinked-tracker cl first mt v, omega arith)
]
