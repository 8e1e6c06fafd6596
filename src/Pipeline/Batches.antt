-- ===== src/Pipeline/Batches.antt =====
-- `Batch` of examples/patterns/data_pipeline.go: what it sends is what it read, cut into batches.
use mpmc_queue.Prelude.{
  ℕ, zero, suc, ◌+◌, ◌≤◌, ◌≡◌, refl, sym, ap, ◌∙◌, List, [], ◌++◌, append-nil, append_assoc, arith,
  length, subst,
}
use mpmc_queue.Pipeline.Upstream.{Source, SourceLaws}
use mpmc_queue.Pipeline.{
  Batcher, Phase, polling, selecting, draining, ended, Signal, upstream_done, batch_step, calls,
}
use mpmc_queue.Pipeline.Batched.{flat, AreSized}
use mpmc_queue.Pipeline.Batching.{
  Rests, IsBatching, to_go, remaining, batch_step-Called, batch_step-IsBatching,
}

-- The stages before are not done yet.
abbrev pub IsOpen : Phase → Type 0
IsOpen polling = Unit
IsOpen selecting = Unit
IsOpen draining = ⊥
IsOpen ended = ⊥

module _ {S A : Type 0} (src : Source S A) (IsValid : S → Type 0) (left : S → List A)
    (laws : SourceLaws src IsValid left) (n : ℕ) where
  -- The goroutine as it starts, with the upstream queue in a state `s`.
  abbrev pub started : S → Batcher S A
  started s = record { source = s; phase = polling; batch = []; sent = [] }

  -- What a batcher may have come to, and all the items that were before it so far. The stages before
  -- it may add items between any two of its calls, until they are done.
  pub data Reach (s₀ : S) : Batcher S A → List A → Type 0 where
    start : Reach s₀ (started s₀) (left s₀)
    arrive :
        {b : Batcher S A} {xs : List A}
        → Reach s₀ b xs
        → IsOpen b.phase
        → (s : S) (more : List A) → IsValid s
        → left s ≡ left b.source ++ more
        → Reach s₀ (record b { source = s }) (xs ++ more)
    call :
        {b : Batcher S A} {xs : List A}
        → Reach s₀ b xs
        → (signal : Signal) → Reach s₀ (batch_step src n signal b) xs

  IsOpen-Rests : (p : Phase) (b : Batcher S A) → IsOpen p → Rests src IsValid left laws n p b
  IsOpen-Rests polling b o = tt
  IsOpen-Rests selecting b o = tt
  IsOpen-Rests draining b o = absurd o
  IsOpen-Rests ended b o = absurd o

  -- Whatever a batcher has come to keeps to what was read.
  Reach-IsBatching :
      (s₀ : S)
      → IsValid s₀
      → (b : Batcher S A) (xs : List A) → Reach s₀ b xs
      → IsBatching src IsValid left laws n b xs
  Reach-IsBatching s₀ v b xs start = record {
    batched = record { valid = v; accounted = refl; sized = tt; open_batch = omega arith };
    over = tt;
  }
  Reach-IsBatching s₀ v b xs (arrive {b = c} {xs = ys} r open_ s more valid grown) =
      let h = Reach-IsBatching s₀ v c ys r in
      record {
        batched = record {
          valid = valid;
          accounted =
              ap (λ l. flat c.sent ++ (c.batch ++ l)) grown
              ∙ ap (λ l. flat c.sent ++ l) (sym (append_assoc c.batch (left c.source) more))
              ∙ sym (append_assoc (flat c.sent) (c.batch ++ left c.source) more)
              ∙ ap (λ l. l ++ more) h.batched.accounted;
          sized = h.batched.sized;
          open_batch = h.batched.open_batch;
        };
        over = IsOpen-Rests c.phase (record c { source = s }) open_;
      }
  Reach-IsBatching s₀ v b xs (call {b = c} r signal) =
      batch_step-IsBatching src IsValid left laws n signal c xs (Reach-IsBatching s₀ v c xs r)

  calls-remaining :
      (k : ℕ) (b : Batcher S A) (xs : List A)
      → IsBatching src IsValid left laws n b xs
      → remaining src IsValid left laws n b ≤ k
      → IsBatching src IsValid left laws n (calls src n k b) xs
        × (remaining src IsValid left laws n (calls src n k b) ≤ 0)
  calls-remaining zero b xs h le = (h, le)
  calls-remaining (suc k) b xs h le =
      let (h', fewer) = batch_step-Called src IsValid left laws n upstream_done b xs h in
      calls-remaining k (batch_step src n upstream_done b) xs h' (omega (arith, fewer))

  nothing_to_go : (p : Phase) (k : ℕ) → to_go src IsValid left laws n p k ≤ 0 → p ≡ ended
  nothing_to_go polling k h = absurd (omega arith)
  nothing_to_go selecting k h = absurd (omega arith)
  nothing_to_go draining k h = absurd (omega arith)
  nothing_to_go ended k h = refl

  to_go_most : (p : Phase) (k : ℕ) → to_go src IsValid left laws n p k ≤ k + 3
  to_go_most polling k = omega arith
  to_go_most selecting k = omega arith
  to_go_most draining k = omega arith
  to_go_most ended k = omega arith

  -- For an upstream queue whose reads take the first item that is left, whatever stages before add
  -- between the calls of Batch until they are done, and whatever it met at its select so far: once
  -- they are done it ends after at most the items left and three more calls, and the batches that
  -- it has sent are then all items there ever were, in order, each of them once, in batches that
  -- are not empty and hold at most the batch size (one, for a size of 0).
  pub batch_step-SendsAll :
      (s₀ : S)
      → IsValid s₀
      → (b : Batcher S A) (xs : List A) → Reach s₀ b xs
      → let b' = calls src n (length (left b.source) + 3) b in
        (b'.phase ≡ ended) × (flat b'.sent ≡ xs) × AreSized n b'.sent
  batch_step-SendsAll s₀ v b xs r =
      let k = length (left b.source) in
      let b' = calls src n (k + 3) b in
      let (h, none_left) =
        calls-remaining (k + 3) b xs (Reach-IsBatching s₀ v b xs r) (to_go_most b.phase k) in
      let over : b'.phase ≡ ended = nothing_to_go b'.phase (length (left b'.source)) none_left in
      let (no_batch, no_item) = subst (λ p. Rests src IsValid left laws n p b') over h.over in
      (
        over,
        sym (append-nil (flat b'.sent))
            ∙ ap (λ l. flat b'.sent ++ l)
                (sym (ap (λ l. b'.batch ++ l) no_item ∙ append-nil b'.batch ∙ no_batch))
            ∙ h.batched.accounted,
        h.batched.sized,
      )
