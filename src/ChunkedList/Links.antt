-- ===== src/ChunkedList/Links.antt =====
-- How the chunks hang together: the list holds consecutive elements, each linked to the next, and the
-- chunks that left it are marked. The contents of the list, and what a reader has before it.
use mpmc_queue.Prelude.{
  ℕ, zero, suc, ◌+◌, ◌-◌, ◌≤◌, ◌<◌, ◌≡◌, refl, ap, true, false, Option, none, some, List, [], ◌∷◌,
  ◌++◌, append_assoc, append-nil, sym, ◌∙◌, arith, ltb, if◌then◌else◌,
}
use mpmc_queue.Data.{QueueData}
use mpmc_queue.Chunk.{ChunkNode, chunk_capacity}
use mpmc_queue.Chunk.Live.{live, live_from}
use mpmc_queue.ChunkedList.{ChunkedList, last?}

-- `n` elements from `e` on.
abbrev pub elements : ℕ → ℕ → List ℕ
elements e zero = []
elements e (suc n) = e ∷ elements (suc e) n

-- The items of the chunks of `n` elements from `e` on, oldest first.
abbrev pub contents_of : (ℕ → ChunkNode) → ℕ → ℕ → List QueueData
contents_of chunks e zero = []
contents_of chunks e (suc n) = live (chunks e) ++ contents_of chunks (suc e) n

-- What a reader at index `i` of element `e` has before it, where `n` elements follow `e`.
abbrev pub unread_of : (ℕ → ChunkNode) → ℕ → ℕ → ℕ → List QueueData
unread_of chunks e i n = live_from (chunks e) i ++ contents_of chunks (suc e) n

-- The element after `e`.
abbrev pub successor : ℕ → ℕ → Option ℕ
successor allocated e = if ltb (suc e) allocated then some (suc e) else none

-- A chunk of the list: it holds an item, it is linked to the next, and only the last has room.
pub record IsFilled (allocated e : ℕ) (c : ChunkNode) : Type 0 where
  pub held : c.head < c.size
  pub within : c.size ≤ chunk_capacity
  pub linked : c.next_element ≡ successor allocated e
  pub in_use : c.pooled ≡ false
  pub packed : suc e < allocated → c.size ≡ chunk_capacity

-- `first` is the oldest element of the list, or the next one to be made.
pub record IsLinked (cl : ChunkedList) (first : ℕ) : Type 0 where
  pub started : first ≤ cl.allocated
  pub in_list : cl.list ≡ elements first (cl.allocated - first)
  pub filled : (e : ℕ) → first ≤ e → e < cl.allocated → IsFilled cl.allocated e (cl.chunks e)
  pub retired : (e : ℕ) → e < first → (cl.chunks e).pooled ≡ true

-- The items of the list from `first` on.
abbrev pub contents : ChunkedList → ℕ → List QueueData
contents cl first = contents_of cl.chunks first (cl.allocated - first)

-- The items from index `i` of element `e` on.
abbrev pub unread : ChunkedList → ℕ → ℕ → List QueueData
unread cl e i = unread_of cl.chunks e i (cl.allocated - suc e)

pub elements_end : (e n : ℕ) → elements e (suc n) ≡ elements e n ++ (e + n) ∷ []
elements_end e zero = ap (λ k. k ∷ []) (omega arith)
elements_end e (suc n) =
    rw (elements_end (suc e) n) (ap (λ k. e ∷ elements (suc e) n ++ k ∷ []) (omega arith))

pub last-elements : (e n : ℕ) → last? (elements e (suc n)) ≡ some (e + n)
last-elements e zero = ap some (omega arith)
last-elements e (suc n) = rw (last-elements (suc e) n) (ap some (omega arith))

-- Stores whose chunks from `e` on hold the same items have the same contents there.
pub contents_of_congr :
    (f g : ℕ → ChunkNode) (e n : ℕ)
    → ((j : ℕ) → e ≤ j → j < e + n → live (f j) ≡ live (g j))
    → contents_of f e n ≡ contents_of g e n
contents_of_congr f g e zero h = refl
contents_of_congr f g e (suc n) h = rw (
  h e (omega arith) (omega arith),
  contents_of_congr f g (suc e) n (λ j lo hi. h j (omega arith) (omega arith)),
)

pub contents_of_end :
    (f : ℕ → ChunkNode) (e n : ℕ) → contents_of f e (suc n) ≡ contents_of f e n ++ live (f (e + n))
contents_of_end f e zero = append-nil (live (f e)) ∙ ap (λ k. live (f k)) (omega arith)
contents_of_end f e (suc n) = rw (contents_of_end f (suc e) n) (
    sym (append_assoc (live (f e)) (contents_of f (suc e) n) (live (f (suc e + n))))
    ∙ ap (λ k. contents_of f e (suc n) ++ live (f k)) (omega arith))

-- The first element of a list that holds one.
pub contents_head :
    (cl : ChunkedList) (first : ℕ)
    → first < cl.allocated
    → contents cl first ≡ live (cl.chunks first) ++ contents cl (suc first)
contents_head cl first h =
    let e : cl.allocated - first ≡ suc (cl.allocated - suc first) = omega arith in rw e

-- An empty chunk behind the others adds nothing.
pub contents_of_grow :
    (f g : ℕ → ChunkNode) (e n : ℕ)
    → ((j : ℕ) → e ≤ j → j < e + n → live (g j) ≡ live (f j))
    → live (g (e + n)) ≡ []
    → contents_of g e (suc n) ≡ contents_of f e n
contents_of_grow f g e n h k =
    contents_of_end g e n ∙ rw (k, contents_of_congr g f e n h) (append-nil (contents_of f e n))

-- An item at the end of the last chunk stands at the end of the contents.
pub contents_of_append :
    (f g : ℕ → ChunkNode) (e n : ℕ) (d : QueueData)
    → ((j : ℕ) → e ≤ j → j < e + n → live (g j) ≡ live (f j))
    → live (g (e + n)) ≡ live (f (e + n)) ++ d ∷ []
    → contents_of g e (suc n) ≡ contents_of f e (suc n) ++ d ∷ []
contents_of_append f g e n d h k =
    rw (contents_of_end g e n, contents_of_end f e n, k, contents_of_congr g f e n h)
      (sym (append_assoc (contents_of f e n) (live (f (e + n))) (d ∷ [])))

pub list_grows :
    (es : List ℕ) (first allocated : ℕ)
    → first ≤ allocated
    → es ≡ elements first (allocated - first)
    → es ++ allocated ∷ [] ≡ elements first (allocated + 1 - first)
list_grows es first allocated h e =
    let n : allocated + 1 - first ≡ suc (allocated - first) = omega arith in
    rw (e, n, elements_end first (allocated - first))
      (ap (λ k. elements first (allocated - first) ++ k ∷ []) (omega arith))
