-- ===== src/Cursor/Expiry/Notes.antt =====
-- What the removal notes of one chunk (`ChunkRemovalInfo`, queue/chunked_list.go) tell a reader.
use mpmc_queue.Prelude.{
  ℕ, zero, suc, ◌+◌, ◌-◌, ◌≤◌, ◌<◌, ◌≡◌, ◌≢◌, refl, ap, sym, ◌∙◌, false, List, [], ◌∷◌, ◌++◌, arith,
  cells, cells_congr, length, length-cells, length-drop, drop, max,
}
use mpmc_queue.Prelude.Int.{ℤ}
use mpmc_queue.Data.{QueueData, is_expired}
use mpmc_queue.Chunk.{ChunkNode}
use mpmc_queue.Chunk.Live.{live, live_from}
use mpmc_queue.Chunk.Expire.{Expires, AllExpired}
use mpmc_queue.ChunkedList.{ChunkRemovalInfo, removal_info}
use mpmc_queue.Cursor.{count_removed, count_missed, raised_index}
use mpmc_queue.Cursor.Expiry.{survivors}

pub survivors-append :
    (now ttl : ℤ) (i : ℕ) (xs ys : List QueueData)
    → AllExpired (λ _. now) ttl i xs
    → survivors now ttl (xs ++ ys) ≡ survivors now ttl ys
survivors-append now ttl i [] ys h = refl
survivors-append now ttl i (x ∷ xs) ys h = rw (h.0) (survivors-append now ttl (suc i) xs ys h.1)

-- What the note of one chunk adds.
module _ (b a : ChunkNode) (e : ℕ) where
  pub count_removed-info :
      (n : ℕ) (rest : List ChunkRemovalInfo)
      → count_removed (removal_info b a e n ++ rest) ≡ n + count_removed rest
  count_removed-info zero rest = omega arith
  count_removed-info (suc n) rest = refl

  pub count_missed-info_ne :
      (f i n : ℕ) (rest : List ChunkRemovalInfo)
      → e ≢ f
      → count_missed f i (removal_info b a e n ++ rest) ≡ count_missed f i rest
  count_missed-info_ne f i zero rest h = refl
  count_missed-info_ne f i (suc n) rest h = ground arith

  pub count_missed-info_self :
      (i n : ℕ) (rest : List ChunkRemovalInfo)
      → 0 < n
      → a.head ≡ b.head + n
      → count_missed e i (removal_info b a e n ++ rest)
        ≡ (a.head - max i b.head) + count_removed rest
  count_missed-info_self i zero rest h k = absurd (omega arith)
  count_missed-info_self i (suc n) rest h k = ground arith

  pub count_missed-info_last :
      (i n : ℕ)
      → a.head ≡ b.head + n
      → count_missed e i (removal_info b a e n) ≡ a.head - max i b.head
  count_missed-info_last i zero h = omega arith
  count_missed-info_last i (suc n) h = ground arith

  pub raised_index-info_ne :
      (f i n : ℕ) (rest : List ChunkRemovalInfo)
      → e ≢ f
      → raised_index f i (removal_info b a e n ++ rest) ≡ raised_index f i rest
  raised_index-info_ne f i zero rest h = refl
  raised_index-info_ne f i (suc n) rest h = ground arith

  pub raised_index-info_self :
      (i n : ℕ)
      → a.head ≡ b.head + n
      → (i ≤ raised_index e i (removal_info b a e n))
        × (max (raised_index e i (removal_info b a e n)) a.head ≡ max i a.head)
        × (raised_index e i (removal_info b a e n) ≤ max i a.head)
  raised_index-info_self i zero h = ground arith
  raised_index-info_self i (suc n) h = ground arith

drop-cells {ℓ} :
    {A : Type ℓ} (f : ℕ → A) (i n k : ℕ) → k ≤ n → drop k (cells f i n) ≡ cells f (i + k) (n - k)
drop-cells f i n zero h = ap (λ j. cells f j n) (omega arith) ∙ ap (cells f (i + 0)) (omega arith)
drop-cells f i zero (suc k) h = absurd (omega arith)
drop-cells f i (suc n) (suc k) h =
    drop-cells f (suc i) n k (omega arith)
    ∙ ap (λ j. cells f j (n - k)) (omega arith)
    ∙ ap (cells f (i + suc k)) (omega arith)

-- The items of a chunk that a reader at index `i` keeps.
pub live_from-Expires :
    (clock : ℕ → ℤ) (ttl : ℤ) (c c' : ChunkNode) (out : List QueueData) (i : ℕ)
    → Expires clock ttl c c' out
    → i ≤ c.size
    → live_from c' i ≡ drop (c'.head - max i c.head) (live_from c i)
live_from-Expires clock ttl c c' out i x h =
    let k = c'.head - max i c.head in
    let s : c'.size ≡ c.size = x.size_kept in
    let m : max i c'.head ≡ max i c.head + k = omega (arith, x.head_moved) in
    let n : c'.size - max i c'.head ≡ (c.size - max i c.head) - k = omega (arith, s, m) in
    sym (
      drop-cells c.items (max i c.head) (c.size - max i c.head) k (omega (arith, x.head_within, s))
      ∙ sym (
          cells_congr c'.items c.items (max i c.head + k) ((c.size - max i c.head) - k)
            (λ j lo hi. x.items_kept j (omega (arith, m))))
      ∙ ap (λ j. cells c'.items j ((c.size - max i c.head) - k)) (sym m)
      ∙ ap (cells c'.items (max i c'.head)) (sym n))

pub survivors_fresh :
    (now ttl : ℤ) (c : ChunkNode) (rest : List QueueData)
    → c.head < c.size
    → is_expired now ttl (c.items c.head) ≡ false
    → survivors now ttl (live c ++ rest) ≡ live c ++ rest
survivors_fresh now ttl c rest h fresh =
    let n : c.size - c.head ≡ suc (c.size - suc c.head) = omega arith in rw n (rw fresh refl)

pub drop-add-append {ℓ} :
    {A : Type ℓ} (xs ys : List A) (k r : ℕ) → k ≡ length xs → drop (k + r) (xs ++ ys) ≡ drop r ys
drop-add-append [] ys k r h = ap (λ j. drop j ys) (omega arith)
drop-add-append (x ∷ xs) ys zero r h = absurd (omega arith)
drop-add-append (x ∷ xs) ys (suc k) r h =
    let n : suc k + r ≡ suc (k + r) = omega arith in rw n (drop-add-append xs ys k r (omega arith))

pub length-live_from : (c : ChunkNode) (i : ℕ) → length (live_from c i) ≡ c.size - max i c.head
length-live_from c i = length-cells c.items (max i c.head) (c.size - max i c.head)

pub drop_counts {ℓ} :
    {A : Type ℓ} (k : ℕ) (xs ys : List A)
    → ys ≡ drop k xs
    → k ≤ length xs
    → k + length ys ≡ length xs
drop_counts k xs ys e h = omega (arith, ap length e, length-drop k xs)
