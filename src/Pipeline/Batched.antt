-- ===== src/Pipeline/Batched.antt =====
-- `flush` and the reading of an item in `Batch` of examples/patterns/data_pipeline.go keep to what was
-- read.
use mpmc_queue.Prelude.{
  ℕ, suc, ◌+◌, ◌≤◌, ◌<◌, ◌≡◌, refl, sym, ap, ◌∙◌, List, [], ◌∷◌, ◌++◌, append-nil, append_assoc,
  arith, length, length-append, max, inl, inr, lt→not_leb, le→leb, lt-or-le, subst, otherwise,
  whenever,
}
use mpmc_queue.Pipeline.{Batcher, Phase, flush, collect}

-- The items of a list of batches.
abbrev pub flat {ℓ} : {A : Type ℓ} → List (List A) → List A
flat [] = []
flat (b ∷ bs) = b ++ flat bs

-- No batch is empty or larger than a batch may be; for a size of 0 that is one item.
abbrev pub AreSized {ℓ} : {A : Type ℓ} → ℕ → List (List A) → Type 0
AreSized n [] = Unit
AreSized n (b ∷ bs) = (0 < length b) × (length b ≤ max 1 n) × AreSized n bs

module _ {ℓ} {A : Type ℓ} where
  flat-append : (bs cs : List (List A)) → flat (bs ++ cs) ≡ flat bs ++ flat cs
  flat-append [] cs = refl
  flat-append (b ∷ bs) cs = ap (λ l. b ++ l) (flat-append bs cs) ∙ sym (append_assoc b _ _)

  AreSized-append :
      (n : ℕ) (bs : List (List A)) (b : List A)
      → AreSized n bs
      → 0 < length b
      → length b ≤ max 1 n
      → AreSized n (bs ++ b ∷ [])
  AreSized-append n [] b h p q = (p, q, tt)
  AreSized-append n (c ∷ cs) b h p q = (h.0, h.1, AreSized-append n cs b h.2 p q)

module _ {S A : Type 0} (IsValid : S → Type 0) (left : S → List A) (n : ℕ) where
  -- What was sent, with the open batch and what is left, is all there was. `bound` is for the batch.
  pub record IsBatched (bound : ℕ) (b : Batcher S A) (xs : List A) : Type 0 where
    pub valid : IsValid b.source
    pub accounted : flat b.sent ++ (b.batch ++ left b.source) ≡ xs
    pub sized : AreSized n b.sent
    pub open_batch : length b.batch < bound

  flush-nonempty :
      (b : Batcher S A)
      → 0 < length b.batch
      → flush b ≡ record b { sent = b.sent ++ b.batch ∷ []; batch = [] }
  unfolding flush
  flush-nonempty b h = otherwise _ _ (lt→not_leb (length b.batch) 0 h)

  pub flush-empty : (b : Batcher S A) → b.batch ≡ [] → flush b ≡ b
  unfolding flush
  flush-empty b h = ground (arith, h)

  flush_fields :
      (s : S) (p q : Phase) (l : List A) (done : List (List A)) (xs : List A)
      → let b : Batcher S A = record { source = s; phase = p; batch = l; sent = done } in
        IsBatched (suc (max 1 n)) b xs → IsBatched (max 1 n) (record (flush b) { phase = q }) xs
  flush_fields s p q [] done xs h =
      let b : Batcher S A = record { source = s; phase = p; batch = []; sent = done } in
      subst (λ c. IsBatched (max 1 n) (record c { phase = q }) xs) (sym (flush-empty b refl))
        record {
          valid = h.valid;
          accounted = h.accounted;
          sized = h.sized;
          open_batch = omega arith;
        }
  flush_fields s p q (x ∷ l) done xs h =
      let b : Batcher S A = record { source = s; phase = p; batch = x ∷ l; sent = done } in
      subst (λ c. IsBatched (max 1 n) (record c { phase = q }) xs)
        (sym (flush-nonempty b (omega arith)))
        record {
          valid = h.valid;
          accounted =
              ap (λ t. t ++ left s) (flat-append done ((x ∷ l) ∷ []))
              ∙ append_assoc (flat done) ((x ∷ l) ++ []) (left s)
              ∙ ap (λ t. flat done ++ (t ++ left s)) (append-nil (x ∷ l))
              ∙ h.accounted;
          sized =
              AreSized-append n done (x ∷ l) h.sized (omega arith) (omega (arith, h.open_batch));
          open_batch = omega arith;
        }

  pub flush-IsBatched :
      (b : Batcher S A) (xs : List A) (q : Phase)
      → IsBatched (suc (max 1 n)) b xs
      → IsBatched (max 1 n) (record (flush b) { phase = q }) xs
  flush-IsBatched b xs q h = flush_fields b.source b.phase q b.batch b.sent xs h

  pub flush-phase : (b : Batcher S A) → (flush b).phase ≡ b.phase
  unfolding flush
  flush-phase b = ground arith

  pub flush-source : (b : Batcher S A) → (flush b).source ≡ b.source
  unfolding flush
  flush-source b = ground arith

  flush-rephased : (b : Batcher S A) → record (flush b) { phase = b.phase } ≡ flush b
  unfolding flush
  flush-rephased b = ground arith

  pub flush-batch : (b : Batcher S A) → (flush b).batch ≡ []
  flush-batch b = batch_of b b.batch refl
    where
      batch_of : (b : Batcher S A) (l : List A) → b.batch ≡ l → (flush b).batch ≡ []
      batch_of b [] h = rw (flush-empty b h) h
      batch_of b (x ∷ l) h =
          ap (λ (c : Batcher S A). c.batch) (flush-nonempty b (omega (arith, ap length h)))

  pub collect-IsBatched :
      (a : A) (b : Batcher S A) (xs : List A)
      → IsValid b.source
      → flat b.sent ++ (b.batch ++ a ∷ left b.source) ≡ xs
      → AreSized n b.sent
      → length b.batch < max 1 n
      → IsBatched (max 1 n) (collect n a b) xs
        × ((collect n a b).phase ≡ b.phase)
        × ((collect n a b).source ≡ b.source)
  unfolding collect
  collect-IsBatched a b xs v e z o =
      let b' : Batcher S A = record b { batch = b.batch ++ a ∷ [] } in
      let count : length b'.batch ≡ length b.batch + 1 = length-append b.batch (a ∷ []) in
      let all : flat b.sent ++ (b'.batch ++ left b.source) ≡ xs =
        ap (λ t. flat b.sent ++ t) (append_assoc b.batch (a ∷ []) (left b.source)) ∙ e in
      elim (lt-or-le (length b'.batch) n) [
        | inl lt ↦
            let same : collect n a b ≡ b' = otherwise _ _ (lt→not_leb n (length b'.batch) lt) in
            subst (λ c. IsBatched (max 1 n) c xs × (c.phase ≡ b.phase) × (c.source ≡ b.source))
              (sym same)
              (
                record { valid = v; accounted = all; sized = z; open_batch = omega arith },
                refl,
                refl,
              )
        | inr le ↦
            let same : collect n a b ≡ flush b' = whenever _ _ (le→leb n (length b'.batch) le) in
            let h : IsBatched (suc (max 1 n)) b' xs = record {
              valid = v;
              accounted = all;
              sized = z;
              open_batch = omega arith;
            } in
            subst (λ c. IsBatched (max 1 n) c xs × (c.phase ≡ b.phase) × (c.source ≡ b.source))
              (sym same)
              (
                subst (λ c. IsBatched (max 1 n) c xs) (flush-rephased b')
                    (flush-IsBatched b' xs b'.phase h),
                flush-phase b',
                flush-source b',
              )
      ]
