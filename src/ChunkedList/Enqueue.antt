-- ===== src/ChunkedList/Enqueue.antt =====
-- `Enqueue` and `EnqueueBatch` keep the chunks linked, and append to what every reader has before it.
use Prim.Native.String.{String}
use mpmc_queue.Prelude.{
  ℕ, suc, ◌+◌, ◌-◌, ◌≤◌, ◌<◌, ◌≡◌, refl, ap, sym, ◌∙◌, none, List, [], ◌∷◌, ◌++◌, append_assoc,
  append-nil, arith, update, update_self, update_ne, lt-or-le, inl, inr, ◌⊎◌, Bool-cases, some,
}
use mpmc_queue.Data.{QueueData}
use mpmc_queue.Chunk.Live.{live_from, added, add_room, live_from-added, cells_to_size}
use mpmc_queue.Prelude.Int.{ℤ, pos}
use mpmc_queue.Prelude.Int64.{add64}
use mpmc_queue.Errors.{memory_limit}
use mpmc_queue.Memory.{MemoryTracker, add_data, can_add_data}
use mpmc_queue.Memory.Estimate.{estimate_queue_data_size}
use mpmc_queue.ChunkedList.{ChunkedList, last_chunk, add_to_chunk, place, enqueue, enqueue_batch}
use mpmc_queue.ChunkedList.LastChunk.{IsOpen, last_chunk-IsOpen}
use mpmc_queue.ChunkedList.Links.{contents_of, IsLinked, contents, unread, contents_of_append}

-- The list with the item in the chunk of `e`.
abbrev pub stored : ChunkedList → ℕ → QueueData → ChunkedList
stored cl e d = record cl {
  chunks = update cl.chunks e (added (cl.chunks e) d);
  memory_tracker = add_data cl.memory_tracker d;
  total_items = add64 cl.total_items (pos 1);
}

-- One more item, for every reader.
pub record Appends (cl cl' : ChunkedList) (first : ℕ) (d : QueueData) : Type 0 where
  pub all : contents cl' first ≡ contents cl first ++ d ∷ []
  pub ahead :
      (e i : ℕ)
      → first ≤ e
      → e < cl.allocated
      → i ≤ (cl.chunks e).size
      → (i ≤ (cl'.chunks e).size) × (unread cl' e i ≡ unread cl e i ++ d ∷ [])
  pub grown : cl.allocated ≤ cl'.allocated

module _ (cl : ChunkedList) (first e : ℕ) (d : QueueData) (o : IsOpen cl first e) where
  pub add_to_chunk-stored : (message : String) → add_to_chunk message cl e d ≡ (stored cl e d, none)
  unfolding add_to_chunk
  add_to_chunk-stored message = rw (add_room (cl.chunks e) d o.room, add_to_chunk)

  pub IsLinked-stored : IsLinked (stored cl e d) first
  IsLinked-stored = record {
    started = omega (arith, o.started, o.ends);
    in_list = o.in_list;
    filled = λ j lo hi. elim (lt-or-le j e) [
      | inl lt ↦
          rw (update_ne cl.chunks {i = e} {j = j} (added (cl.chunks e) d) (omega arith))
            (o.filled j lo lt)
      | inr ge ↦
          let p : j ≡ e = omega (arith, o.ends) in
          rw (p, update_self cl.chunks e (added (cl.chunks e) d))
            (record {
              held = omega (arith, o.in_order);
              within = omega (arith, o.room);
              linked = rw o.last (ground (arith, o.ends));
              in_use = o.in_use;
              packed = λ lt. absurd (omega (arith, o.ends));
            })
    ];
    retired = λ j lt. ground (arith, o.retired j);
  }

  contents_of-stored :
      (j n : ℕ)
      → j + n ≡ e
      → contents_of (stored cl e d).chunks j (suc n) ≡ contents_of cl.chunks j (suc n) ++ d ∷ []
  contents_of-stored j n h =
      contents_of_append cl.chunks (stored cl e d).chunks j n d (λ k lo hi. ground arith)
        (rw (h, update_self cl.chunks e (added (cl.chunks e) d))
          (cells_to_size (cl.chunks e) d (cl.chunks e).head o.in_order))

  pub Appends-stored : Appends cl (stored cl e d) first d
  Appends-stored = record {
    all =
        let n : cl.allocated - first ≡ suc (e - first) = omega (arith, o.ends, o.started) in
        rw n (contents_of-stored first (e - first) (omega (arith, o.started)));
    ahead = λ j i lo hi le. elim (lt-or-le j e) [
      | inl lt ↦
          let n : cl.allocated - suc j ≡ suc (e - suc j) = omega (arith, o.ends) in
          rw (update_ne cl.chunks {i = e} {j = j} (added (cl.chunks e) d) (omega arith)) (
            le,
            rw (n, contents_of-stored (suc j) (e - suc j) (omega arith))
                (sym (append_assoc (live_from (cl.chunks j) i) _ (d ∷ []))),
          )
      | inr ge ↦
          let n : cl.allocated - suc j ≡ 0 = omega (arith, o.ends) in
          let p : j ≡ e = omega (arith, o.ends) in
          let k : i ≤ (cl.chunks e).size = rw p at le in
          rw (n, p, update_self cl.chunks e (added (cl.chunks e) d))
            (
              omega arith,
              append-nil _
                  ∙ live_from-added (cl.chunks e) d i o.in_order k
                  ∙ ap (λ ds. ds ++ d ∷ []) (sym (append-nil _)),
            )
    ];
    grown = omega arith;
  }

module _ (cl : ChunkedList) (first : ℕ) (d : QueueData) (message : String)
    (v : IsLinked cl first) where
  -- In a linked list every item finds a place; the list stays linked, and the item stands behind
  -- all others for every reader.
  pub place-Appends :
      let (cl', failed) = place message cl d in
      (failed ≡ none) × IsLinked cl' first × Appends cl cl' first d
  unfolding place
  place-Appends =
      let (cl', e) = last_chunk cl in
      let (o, same) = last_chunk-IsOpen cl first v in
      let a = Appends-stored cl' first e d o in
      rw (add_to_chunk-stored cl' first e d o message) (
        refl,
        IsLinked-stored cl' first e d o,
        record {
          all = a.all ∙ ap (λ ds. ds ++ d ∷ []) same.all;
          ahead = λ j i lo hi le.
              let (le', u) = same.ahead j i lo hi le in
              let (le'', u') = a.ahead j i lo (omega (arith, same.grown)) le' in
              (le'', u' ∙ ap (λ ds. ds ++ d ∷ []) u);
          grown = same.grown;
        },
      )

-- `Enqueue` on a linked list stores the item, or says that memory lacks and changes the cache of sizes
-- only.
pub enqueue-cases :
    (cl : ChunkedList) (first : ℕ) (d : QueueData)
    → IsLinked cl first
    → ((cl' : ChunkedList) × (enqueue cl d ≡ (cl', none))
        × IsLinked cl' first
        × Appends cl cl' first d)
      ⊎ ((mt : MemoryTracker) × (needed : ℤ) × (enqueue cl d ≡ (
        record cl { memory_tracker = mt },
        some (memory_limit cl.memory_tracker.total_memory cl.memory_tracker.max_memory needed),
      )))
unfolding enqueue
enqueue-cases cl first d v = elim (Bool-cases (can_add_data cl.memory_tracker d)) [
  | inl can ↦
      let put = place "Failed to add data to chunk" cl d in
      let (ok, v', a) = place-Appends cl first d "Failed to add data to chunk" v in
      let taken : enqueue cl d ≡ put = simp can in
      inl (put.0, taken ∙ ap (λ f. (put.0, f)) ok, v', a)
  | inr cannot ↦
      let (needed, mt) = estimate_queue_data_size cl.memory_tracker d in
      inr (mt, needed, simp cannot)
]

-- The same for a list of items, in its order.
pub record AppendsAll (cl cl' : ChunkedList) (first : ℕ) (ds : List QueueData) : Type 0 where
  pub all : contents cl' first ≡ contents cl first ++ ds
  pub ahead :
      (e i : ℕ)
      → first ≤ e
      → e < cl.allocated
      → i ≤ (cl.chunks e).size
      → (i ≤ (cl'.chunks e).size) × (unread cl' e i ≡ unread cl e i ++ ds)
  pub grown : cl.allocated ≤ cl'.allocated

-- In a linked list EnqueueBatch never fails, keeps the list linked and puts the items behind all
-- others, in order, for every reader.
pub enqueue_batch-AppendsAll :
    (ds : List QueueData) (cl : ChunkedList) (first : ℕ)
    → IsLinked cl first
    → let (cl', failed) = enqueue_batch cl ds in
      (failed ≡ none) × IsLinked cl' first × AppendsAll cl cl' first ds
unfolding enqueue_batch
enqueue_batch-AppendsAll [] cl first v = (
  refl,
  v,
  record {
    all = sym (append-nil _);
    ahead = λ e i lo hi le. (le, sym (append-nil _));
    grown = omega arith;
  },
)
enqueue_batch-AppendsAll (d ∷ ds) cl first v =
    let (cl', failed) = place "Failed to add data to chunk during batch" cl d in
    let (ok, v', a) = place-Appends cl first d "Failed to add data to chunk during batch" v in
    let (done, v'', b) = enqueue_batch-AppendsAll ds cl' first v' in
    rw (ok, enqueue_batch)
      (
        done,
        v'',
        record {
          all = b.all ∙ rw a.all (append_assoc (contents cl first) (d ∷ []) ds);
          ahead = λ e i lo hi le.
              let (le', u) = a.ahead e i lo hi le in
              let (le'', u') = b.ahead e i lo (omega (arith, a.grown)) le' in
              (le'', u' ∙ rw u (append_assoc (unread cl e i) (d ∷ []) ds));
          grown = omega (arith, a.grown, b.grown);
        },
      )
