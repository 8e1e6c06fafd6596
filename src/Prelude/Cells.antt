-- ===== src/Prelude/Cells.antt =====
-- Arrays and stores as functions from an index: reading, writing, and the run of cells between two
-- indices.
use Prim.Native.Nat.{ℕ, zero, suc, ◌+◌, ◌≤◌, ◌<◌}
use mathlib.Core.Path.{◌≡◌, refl, ap, ap₂}
use mathlib.Core.Logic.{◌≢◌}
use mathlib.Core.List.{List, [], ◌∷◌, ◌++◌}
use native.Mathlib.Omega.{arith}
use mpmc_queue.Prelude.Tests.{◌==◌, if◌then◌else◌}
use mpmc_queue.Prelude.Lists.{length}

module _ {ℓ} {A : Type ℓ} where
  -- The cells with cell `i` written.
  abbrev pub update : (ℕ → A) → ℕ → A → ℕ → A
  update f i v j = if j == i then v else f j

  pub update_self : (f : ℕ → A) (i : ℕ) (v : A) → update f i v i ≡ v
  update_self f i v = ground arith

  pub update_ne : (f : ℕ → A) {i j : ℕ} (v : A) → j ≢ i → update f i v j ≡ f j
  update_ne f v h = ground arith

  -- The `n` cells from `i` on.
  abbrev pub cells : (ℕ → A) → ℕ → ℕ → List A
  cells f i zero = []
  cells f i (suc n) = f i ∷ cells f (suc i) n

  pub length-cells : (f : ℕ → A) (i n : ℕ) → length (cells f i n) ≡ n
  length-cells f i zero = refl
  length-cells f i (suc n) = ap suc (length-cells f (suc i) n)

  -- Two stores that agree on a run of cells have the same run.
  pub cells_congr :
      (f g : ℕ → A) (i n : ℕ)
      → ((j : ℕ) → i ≤ j → j < i + n → f j ≡ g j)
      → cells f i n ≡ cells g i n
  cells_congr f g i zero h = refl
  cells_congr f g i (suc n) h =
      ap₂ ◌∷◌ (h i (omega arith) (omega arith))
        (cells_congr f g (suc i) n (λ j lo hi. h j (omega arith) (omega arith)))

  pub cells-update_lt :
      (f : ℕ → A) (k i n : ℕ) (v : A) → k < i → cells (update f k v) i n ≡ cells f i n
  cells-update_lt f k i n v h =
      cells_congr (update f k v) f i n (λ j lo hi. update_ne f v (omega arith))

  pub cells_end : (f : ℕ → A) (i n : ℕ) → cells f i (suc n) ≡ cells f i n ++ f (i + n) ∷ []
  cells_end f i zero = ap (λ k. f k ∷ []) (omega arith)
  cells_end f i (suc n) =
      ap (◌∷◌ (f i))
        (rw (cells_end f (suc i) n) (ap (λ k. cells f (suc i) n ++ f k ∷ []) (omega arith)))

  -- A write just past a run extends it.
  pub cells-update_end :
      (f : ℕ → A) (i n : ℕ) (v : A) → cells (update f (i + n) v) i (suc n) ≡ cells f i n ++ v ∷ []
  cells-update_end f i n v = rw (
    cells_end (update f (i + n) v) i n,
    cells_congr (update f (i + n) v) f i n (λ j lo hi. update_ne f v (omega arith)),
    update_self f (i + n) v,
  )

  pub cells-append : (f : ℕ → A) (i m n : ℕ) → cells f i (m + n) ≡ cells f i m ++ cells f (i + m) n
  cells-append f i zero n = ap₂ (λ a b. cells f a b) (omega arith) (omega arith)
  cells-append f i (suc m) n =
      let e : suc m + n ≡ suc (m + n) = omega arith in
      rw (e) (
        ap (◌∷◌ (f i)) (
          rw (cells-append f (suc i) m n)
            (ap (λ k. cells f (suc i) m ++ cells f k n) (omega arith))))
