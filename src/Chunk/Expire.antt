-- ===== src/Chunk/Expire.antt =====
-- What `RemoveExpired` takes out of a chunk, and what it leaves.
use mpmc_queue.Prelude.{
  ℕ, zero, suc, ◌+◌, ◌-◌, ◌≤◌, ◌<◌, ◌≡◌, refl, sym, ap, subst, ◌∙◌, true, false, List, [], ◌∷◌,
  ◌++◌, arith, update, cells, length, cells-update_lt, update_ne, Bool-cases, inl, inr,
}
use mpmc_queue.Prelude.Int.{ℤ}
use mpmc_queue.Data.{QueueData, is_expired, zero_data}
use mpmc_queue.Chunk.{ChunkNode, expire_from, remove_expired}
use mpmc_queue.Chunk.Live.{live}

-- The items at index `i` and on were each expired when they were looked at.
abbrev pub AllExpired : (ℕ → ℤ) → ℤ → ℕ → List QueueData → Type 0
AllExpired clock ttl i [] = Unit {0}
AllExpired clock ttl i (d ∷ ds) =
    (is_expired (clock i) ttl d ≡ true) × AllExpired clock ttl (suc i) ds

pub record Expires (clock : ℕ → ℤ) (ttl : ℤ) (c c' : ChunkNode) (out : List QueueData)
    : Type 0 where
  pub head_moved : c'.head ≡ c.head + length out
  pub size_kept : c'.size ≡ c.size
  pub next_kept : c'.next_element ≡ c.next_element
  pub pooled_kept : c'.pooled ≡ c.pooled
  pub head_within : c'.head ≤ c'.size
  pub split :
      cells c.items c.head (c.size - c.head) ≡ out ++ cells c'.items c'.head (c'.size - c'.head)
  pub items_kept : (j : ℕ) → c'.head ≤ j → c'.items j ≡ c.items j
  pub taken : AllExpired clock ttl c.head out
  pub stopped : c'.head < c'.size → is_expired (clock c'.head) ttl (c'.items c'.head) ≡ false

-- The chunk with its first live item, that at index `i`, taken out.
abbrev dropped : ChunkNode → ℕ → ChunkNode
dropped c i = record c { items = update c.items i zero_data; head = c.head + 1 }

cells_head :
    (c : ChunkNode) (i : ℕ) → c.head ≡ i → i < c.size → live c ≡ c.items i ∷ live (dropped c i)
cells_head c i h lt =
    let n : c.size - c.head ≡ suc (c.size - (c.head + 1)) = omega arith in
    let e : suc i ≡ c.head + 1 = omega arith in
    let f : ℕ → QueueData = update c.items i zero_data in
    rw (n, h)
      (ap (◌∷◌ (c.items i)) (
        sym (cells-update_lt c.items i (suc i) (c.size - (i + 1)) zero_data (omega arith))
        ∙ ap (λ k. cells f k (c.size - (i + 1))) (omega arith)))

module _ (clock : ℕ → ℤ) (ttl : ℤ) where
  Expires-dropped :
      (c c' : ChunkNode) (out : List QueueData) (i : ℕ)
      → c.head ≡ i
      → i < c.size
      → is_expired (clock i) ttl (c.items i) ≡ true
      → Expires clock ttl (dropped c i) c' out
      → Expires clock ttl c c' (c.items i ∷ out)
  Expires-dropped c c' out i h lt e x = record {
    head_moved = omega (arith, x.head_moved);
    size_kept = x.size_kept;
    next_kept = x.next_kept;
    pooled_kept = x.pooled_kept;
    head_within = x.head_within;
    split = cells_head c i h lt ∙ ap (◌∷◌ (c.items i)) x.split;
    items_kept =
        λ j le. x.items_kept j le ∙ update_ne c.items zero_data (omega (arith, x.head_moved));
    taken = (rw h e, subst (λ k. AllExpired clock ttl k out) (omega arith) x.taken);
    stopped = x.stopped;
  }

  expire_from-Expires :
      (n i : ℕ) (c : ChunkNode)
      → c.head ≡ i
      → c.size ≡ i + n
      → let (c', out) = expire_from clock ttl n i c in Expires clock ttl c c' out
  unfolding expire_from
  expire_from-Expires zero i c h k = record {
    head_moved = omega arith;
    size_kept = refl;
    next_kept = refl;
    pooled_kept = refl;
    head_within = omega arith;
    split = refl;
    items_kept = λ j _. refl;
    taken = tt;
    stopped = λ lt. absurd (omega arith);
  }
  expire_from-Expires (suc n) i c h k = elim (Bool-cases (is_expired (clock i) ttl (c.items i))) [
    | inl e ↦
        rw (e, expire_from)
          (Expires-dropped c _ _ i h (omega arith) e
            (expire_from-Expires n (suc i) (dropped c i) (omega arith) (omega arith)))
    | inr e ↦
        rw (e, expire_from)
          (record {
            head_moved = omega arith;
            size_kept = refl;
            next_kept = refl;
            pooled_kept = refl;
            head_within = omega arith;
            split = refl;
            items_kept = λ j _. refl;
            taken = tt;
            stopped = λ _. rw h e;
          })
  ]

  -- For a chunk whose head is not past its size, and whatever the readings of the clock,
  -- RemoveExpired takes a front part of the live items, each expired when it was looked at, up to
  -- the first that was not, and leaves the rest in place.
  pub remove_expired-Expires :
      (c : ChunkNode)
      → c.head ≤ c.size
      → let (c', out) = remove_expired clock ttl c in Expires clock ttl c c' out
  unfolding remove_expired
  remove_expired-Expires c h = expire_from-Expires (c.size - c.head) c.head c refl (omega arith)
