-- ===== src/ChunkedList/LastChunk.antt =====
-- The chunk that takes the next item: found or made by `Enqueue` in queue/chunked_list.go.
use mpmc_queue.Prelude.{
  ℕ, suc, ◌+◌, ◌-◌, ◌≤◌, ◌<◌, ◌≡◌, ◌⊎◌, refl, ap, ◌∙◌, true, false, none, some, arith, lt-or-le,
  inl, inr,
}
use mpmc_queue.Chunk.{ChunkNode, chunk_capacity}
use mpmc_queue.Chunk.Live.{live, live_from}
use mpmc_queue.ChunkedList.{ChunkedList, last?, push_back, link_next, last_chunk}
use mpmc_queue.ChunkedList.Links.{
  elements, contents_of, IsFilled, IsLinked, contents, unread, last-elements, contents_of_grow,
  list_grows,
}

-- A list whose last chunk, that of element `e`, takes another item.
pub record IsOpen (cl : ChunkedList) (first e : ℕ) : Type 0 where
  pub started : first ≤ e
  pub ends : cl.allocated ≡ suc e
  pub in_list : cl.list ≡ elements first (cl.allocated - first)
  pub filled : (j : ℕ) → first ≤ j → j < e → IsFilled cl.allocated j (cl.chunks j)
  pub retired : (j : ℕ) → j < first → (cl.chunks j).pooled ≡ true
  pub in_order : (cl.chunks e).head ≤ (cl.chunks e).size
  pub room : (cl.chunks e).size < chunk_capacity
  pub last : (cl.chunks e).next_element ≡ none
  pub in_use : (cl.chunks e).pooled ≡ false

-- The same items, for every reader.
pub record SameItems (cl cl' : ChunkedList) (first : ℕ) : Type 0 where
  pub all : contents cl' first ≡ contents cl first
  pub ahead :
      (e i : ℕ)
      → first ≤ e
      → e < cl.allocated
      → i ≤ (cl.chunks e).size
      → (i ≤ (cl'.chunks e).size) × (unread cl' e i ≡ unread cl e i)
  pub grown : cl.allocated ≤ cl'.allocated

-- The three ways to find a chunk.
module _ (cl : ChunkedList) where
  last_chunk-none : last? cl.list ≡ none → last_chunk cl ≡ (push_back cl, cl.allocated)
  unfolding last_chunk
  last_chunk-none h = ground arith

  last_chunk-room :
      (e : ℕ)
      → last? cl.list ≡ some e
      → (cl.chunks e).size < chunk_capacity
      → last_chunk cl ≡ (cl, e)
  unfolding last_chunk
  last_chunk-room e h k = ground arith

  last_chunk-full :
      (e : ℕ)
      → last? cl.list ≡ some e
      → chunk_capacity ≤ (cl.chunks e).size
      → last_chunk cl ≡ (link_next (push_back cl) e cl.allocated, cl.allocated)
  unfolding last_chunk
  last_chunk-full e h k = ground arith

-- The store behind a full last chunk.
linked_store : ChunkedList → ℕ → ChunkNode
linked_store cl = (link_next (push_back cl) (cl.allocated - 1) cl.allocated).chunks

module _ (cl : ChunkedList) (first : ℕ) (v : IsLinked cl first) where
  last-list-none : cl.allocated ≤ first → last? cl.list ≡ none
  last-list-none h = let n : cl.allocated - first ≡ 0 = omega arith in rw (v.in_list, n)

  last-list-some : first < cl.allocated → last? cl.list ≡ some (cl.allocated - 1)
  last-list-some h =
      let n : cl.allocated - first ≡ suc (cl.allocated - suc first) = omega arith in
      rw (v.in_list, n, last-elements first (cl.allocated - suc first)) (ap some (omega arith))

  IsOpen-push_back : cl.allocated ≤ first → IsOpen (push_back cl) first cl.allocated
  IsOpen-push_back h = record {
    started = v.started;
    ends = omega arith;
    in_list = list_grows cl.list first cl.allocated v.started v.in_list;
    filled = λ j lo hi. absurd (omega arith);
    retired = λ j lt. ground (arith, v.retired j);
    in_order = ground arith;
    room = ground arith;
    last = ground arith;
    in_use = ground arith;
  }

  SameItems-push_back : cl.allocated ≤ first → SameItems cl (push_back cl) first
  SameItems-push_back h = record {
    all =
        let n : cl.allocated - first ≡ 0 = omega arith in
        let m : cl.allocated + 1 - first ≡ 1 = omega arith in
        let e : first ≡ cl.allocated = omega arith in rw (n, m, e) (ground arith);
    ahead = λ e i lo hi le. absurd (omega arith);
    grown = omega arith;
  }

  IsOpen-room :
      first < cl.allocated
      → (cl.chunks (cl.allocated - 1)).size < chunk_capacity
      → IsOpen cl first (cl.allocated - 1)
  IsOpen-room h room =
      let f = v.filled (cl.allocated - 1) (omega arith) (omega arith) in
      record {
        started = omega arith;
        ends = omega arith;
        in_list = v.in_list;
        filled = λ j lo hi. v.filled j lo (omega arith);
        retired = v.retired;
        in_order = omega (arith, f.held);
        room = room;
        last = f.linked ∙ ground arith;
        in_use = f.in_use;
      }

  IsOpen-full :
      first < cl.allocated
      → chunk_capacity ≤ (cl.chunks (cl.allocated - 1)).size
      → IsOpen (link_next (push_back cl) (cl.allocated - 1) cl.allocated) first cl.allocated
  IsOpen-full h full = record {
    started = v.started;
    ends = omega arith;
    in_list = list_grows cl.list first cl.allocated v.started v.in_list;
    filled = λ j lo hi. ground (arith, v.filled j lo hi);
    retired = λ j lt. ground (arith, v.retired j);
    in_order = ground arith;
    room = ground arith;
    last = ground arith;
    in_use = ground arith;
  }

  live_from-linked :
      (j i : ℕ)
      → j < cl.allocated
      → (live_from (linked_store cl j) i ≡ live_from (cl.chunks j) i)
        × (live (linked_store cl j) ≡ live (cl.chunks j))
        × ((linked_store cl j).size ≡ (cl.chunks j).size)
  unfolding linked_store
  live_from-linked j i h = (ground arith, ground arith, ground arith)

  contents_of-linked :
      (e n : ℕ)
      → e + n ≡ cl.allocated
      → contents_of (linked_store cl) e (suc n) ≡ contents_of cl.chunks e n
  unfolding linked_store
  contents_of-linked e n h =
      contents_of_grow cl.chunks (linked_store cl) e n
        (λ j lo hi. (live_from-linked j 0 (omega arith)).1) (rw h (ground arith))

  SameItems-full :
      first < cl.allocated
      → SameItems cl (link_next (push_back cl) (cl.allocated - 1) cl.allocated) first
  unfolding linked_store
  SameItems-full h = record {
    all =
        let n : cl.allocated + 1 - first ≡ suc (cl.allocated - first) = omega arith in
        rw n (contents_of-linked first (cl.allocated - first) (omega arith));
    ahead = λ e i lo hi le.
        let n : cl.allocated + 1 - suc e ≡ suc (cl.allocated - suc e) = omega arith in
        (
          rw ((live_from-linked e i hi).2) le,
          rw (
            n,
            (live_from-linked e i hi).0,
            contents_of-linked (suc e) (cl.allocated - suc e) (omega arith),
          ),
        );
    grown = omega arith;
  }

  -- The chunk that takes the next item is there, and nothing else has changed for a reader.
  pub last_chunk-IsOpen :
      let (cl', e) = last_chunk cl in IsOpen cl' first e × SameItems cl cl' first
  last_chunk-IsOpen = elim (lt-or-le first cl.allocated) [
    | inr none_left ↦
        rw (last_chunk-none cl (last-list-none none_left))
          (IsOpen-push_back none_left, SameItems-push_back none_left)
    | inl some_left ↦ elim (lt-or-le (cl.chunks (cl.allocated - 1)).size chunk_capacity) [
      | inl room ↦ rw (last_chunk-room cl _ (last-list-some some_left) room) (
        IsOpen-room some_left room,
        record { all = refl; ahead = λ e i lo hi le. (le, refl); grown = omega arith },
      )
      | inr full ↦
          rw (last_chunk-full cl _ (last-list-some some_left) full)
            (IsOpen-full some_left full, SameItems-full some_left)
    ]
  ]

  -- The list that `last_chunk` leaves: as it was, with a new chunk, or with one behind a full chunk.
  pub last_chunk-cases :
      ((last_chunk cl).0 ≡ cl)
      ⊎ (((last_chunk cl).0 ≡ push_back cl)
          ⊎ (((last_chunk cl).0 ≡ link_next (push_back cl) (cl.allocated - 1) cl.allocated)
              × (first < cl.allocated)))
  last_chunk-cases = elim (lt-or-le first cl.allocated) [
    | inr none_left ↦ inr (inl (ap (λ t. t.0) (last_chunk-none cl (last-list-none none_left))))
    | inl some_left ↦ elim (lt-or-le (cl.chunks (cl.allocated - 1)).size chunk_capacity) [
      | inl room ↦ inl (ap (λ t. t.0) (last_chunk-room cl _ (last-list-some some_left) room))
      | inr full ↦
          inr
            (inr (ap (λ t. t.0) (last_chunk-full cl _ (last-list-some some_left) full), some_left))
    ]
  ]
