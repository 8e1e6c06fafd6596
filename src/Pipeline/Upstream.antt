-- ===== src/Pipeline/Upstream.antt =====
-- What a stage of the pipeline (examples/patterns/data_pipeline.go) uses of its upstream queue: the
-- calls of the consumer that it reads with. `S` is the state of the queue and of the consumer.
use mpmc_queue.Prelude.{◌≡◌, Bool, true, false, Option, List, [], ◌∷◌, head?, tail}

pub record Source (S A : Type 0) : Type 0 where
  pub try_read : S → Option A × S
  pub has_more_data : S → Bool

abbrev pub is_nonempty {ℓ} : {A : Type ℓ} → List A → Bool
is_nonempty [] = false
is_nonempty (x ∷ xs) = true

-- A call takes the first of the items that are left, and tells rightly whether there are some.
pub record SourceLaws {S A : Type 0} (src : Source S A) (IsValid : S → Type 0) (left : S → List A)
    : Type 0 where
  pub valid : (s : S) → IsValid s → IsValid (src.try_read s).1
  pub first : (s : S) → IsValid s → (src.try_read s).0 ≡ head? (left s)
  pub others : (s : S) → IsValid s → left (src.try_read s).1 ≡ tail (left s)
  pub more : (s : S) → IsValid s → src.has_more_data s ≡ is_nonempty (left s)
