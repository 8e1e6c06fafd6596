-- ===== src/Metrics/Recent.antt =====
-- The windows of queue/metrics.go keep the latest samples.
use Prim.Native.Nat.{◌%◌, ◌/◌, ◌*◌}
use native.Mathlib.Nat.{div-add-mod, mod-lt, mul-suc, mul-zero}
use mpmc_queue.Prelude.{
  ℕ, zero, suc, ◌+◌, ◌-◌, ◌≤◌, ◌<◌, ◌≡◌, refl, ap, sym, subst, ◌∙◌, inl, inr, List, [], ◌∷◌, ◌++◌,
  append_assoc, append-nil, arith, lt-or-le, if◌then◌else◌, ltb, lt→ltb, le→not_ltb, length,
  length-append, length-cells, drop, cells, cells-update_end, cells-update_lt, update,
}
use mpmc_queue.Prelude.Int.{ℤ}
use mpmc_queue.Metrics.{Window, record_sample}

-- The next index follows the samples until the window is full, and then goes round.
pub record IsWindow (max : ℕ) (w : Window) : Type 0 where
  pub some_room : 0 < max
  pub count : w.count ≤ max
  pub index : w.index < max
  pub begins : w.count < max → w.index ≡ w.count

-- The samples of a window, oldest first.
abbrev pub recent : ℕ → Window → List ℤ
recent max w =
    if ltb w.count max
    then cells w.samples 0 w.count
    else cells w.samples w.index (max - w.index) ++ cells w.samples 0 w.index

mod_below : (a m : ℕ) → a < m → a % m ≡ a
mod_below a m h = go (a / m) (div-add-mod a m)
  where
    go : (q : ℕ) → m * q + a % m ≡ a → a % m ≡ a
    go zero e = omega arith
    go (suc q) e = absurd (omega (arith, mul-suc m q))

mod_self : (m : ℕ) → 0 < m → m % m ≡ 0
mod_self m h = go (m / m) (div-add-mod m m)
  where
    go : (q : ℕ) → m * q + m % m ≡ m → m % m ≡ 0
    go zero e = absurd (omega (arith, mul-zero m))
    go (suc q) e = omega (arith, mul-suc m q)

recent_full :
    (max : ℕ) (u : Window)
    → max ≤ u.count
    → recent max u ≡ cells u.samples u.index (max - u.index) ++ cells u.samples 0 u.index
recent_full max u h = rw (le→not_ltb u.count max h) refl

recent_some : (max : ℕ) (u : Window) → u.count < max → recent max u ≡ cells u.samples 0 u.count
recent_some max u h = rw (lt→ltb u.count max h) refl

module _ (max : ℕ) (d : ℤ) (w : Window) (v : IsWindow max w) where
  abbrev written : ℕ → ℤ
  written = update w.samples w.index d

  abbrev next_window : Window
  next_window = record_sample max d w

  -- The samples up to the new one.
  up_to_new : cells written 0 (w.index + 1) ≡ cells w.samples 0 w.index ++ d ∷ []
  up_to_new =
      let z : 0 + w.index ≡ w.index = omega arith in
      let n : w.index + 1 ≡ suc w.index = omega arith in
      rw n (
        subst
          (λ k. cells (update w.samples k d) 0 (suc w.index) ≡ cells w.samples 0 w.index ++ d ∷ [])
          z (cells-update_end w.samples 0 w.index d))

  behind_new : (n : ℕ) → cells written (w.index + 1) n ≡ cells w.samples (w.index + 1) n
  behind_new n = cells-update_lt w.samples w.index (w.index + 1) n d (omega arith)

  -- What a bounded list keeps.
  abbrev kept : List ℤ
  kept = drop (length (recent max w) + 1 - max) (recent max w ++ d ∷ [])

  kept_some : w.count < max → kept ≡ cells w.samples 0 w.index ++ d ∷ []
  kept_some h =
      let all : recent max w ≡ cells w.samples 0 w.index =
        recent_some max w h ∙ ap (cells w.samples 0) (sym (v.begins h)) in
      let none_over : w.index + 1 - max ≡ 0 = omega (arith, v.begins h) in
      rw (all, length-cells w.samples 0 w.index, none_over) refl

  kept_full :
      max ≤ w.count
      → kept
        ≡ cells w.samples (w.index + 1) (max - (w.index + 1))
          ++ (cells w.samples 0 w.index ++ d ∷ [])
  kept_full h =
      let n : max - w.index ≡ suc (max - (w.index + 1)) = omega (arith, v.index) in
      let i : suc w.index ≡ w.index + 1 = omega arith in
      let old = cells w.samples (w.index + 1) (max - (w.index + 1)) in
      let all : recent max w ≡ w.samples w.index ∷ old ++ cells w.samples 0 w.index =
        recent_full max w h ∙ rw (n, i) refl in
      let one : length (w.samples w.index ∷ old ++ cells w.samples 0 w.index) + 1 - max ≡ 1 =
        omega (
          arith,
          v.index,
          length-append old (cells w.samples 0 w.index),
          length-cells w.samples (w.index + 1) (max - (w.index + 1)),
          length-cells w.samples 0 w.index,
        ) in
      rw (all, one) (append_assoc old (cells w.samples 0 w.index) (d ∷ []))

  -- A window behind the new sample, which is full.
  full_again :
      (c : ℕ)
      → max ≤ c
      → (recent max (record { samples = written; index = (w.index + 1) % max; count = c }))
        ≡ cells w.samples (w.index + 1) (max - (w.index + 1))
          ++ (cells w.samples 0 w.index ++ d ∷ [])
  full_again c h =
      let u : Window = record { samples = written; index = (w.index + 1) % max; count = c } in
      elim (lt-or-le (w.index + 1) max) [
        | inl on ↦
            let m = mod_below (w.index + 1) max on in
            recent_full max u h ∙ rw (m, behind_new (max - (w.index + 1)), up_to_new) refl
        | inr round ↦
            let e : w.index + 1 ≡ max = omega (arith, v.index) in
            let m : (w.index + 1) % max ≡ 0 = rw e (mod_self max v.some_room) in
            let n : max - (w.index + 1) ≡ 0 = omega arith in
            let a : max - 0 ≡ w.index + 1 = omega arith in
            recent_full max u h ∙ rw (m, n, a, append-nil) up_to_new
      ]

  -- A window whose index follows its samples until it is full, and then goes round, stays one when
  -- a sample is recorded, and then holds the samples that it held, oldest first, with the new one
  -- behind them, but for the oldest where there would be more than its bound.
  pub record_sample-recent :
      IsWindow max next_window
      × (recent max next_window ≡ drop (length (recent max w) + 1 - max) (recent max w ++ d ∷ []))
  unfolding record_sample
  record_sample-recent =
      let Good = λ (u : Window). IsWindow max u × (recent max u ≡ kept) in
      let more : Window = record {
        samples = written;
        index = (w.index + 1) % max;
        count = w.count + 1;
      } in
      let same : Window = record {
        samples = written;
        index = (w.index + 1) % max;
        count = w.count;
      } in
      elim (lt-or-le w.count max) [
        | inl room ↦
            let e : next_window ≡ more = rw (lt→ltb w.count max room) refl in
            let b = v.begins room in
            subst Good (sym e) (elim (lt-or-le (w.count + 1) max) [
              | inl still ↦
                  let m = mod_below (w.index + 1) max (omega arith) in
                  (
                    record {
                      some_room = v.some_room;
                      count = omega arith;
                      index = omega (arith, m);
                      begins = λ h. omega (arith, m);
                    },
                    recent_some max more still
                        ∙ ap (cells written 0) (ap (λ k. k + 1) (sym b))
                        ∙ up_to_new
                        ∙ sym (kept_some room),
                  )
              | inr full ↦
                  let last : max - (w.index + 1) ≡ 0 = omega arith in
                  (
                    record {
                      some_room = v.some_room;
                      count = omega arith;
                      index = mod-lt (w.index + 1) v.some_room;
                      begins = λ h. absurd (omega arith);
                    },
                    full_again (w.count + 1) full ∙ rw last refl ∙ sym (kept_some room),
                  )
            ])
        | inr full ↦
            let e : next_window ≡ same = rw (le→not_ltb w.count max full) refl in
            subst Good (sym e) (
              record {
                some_room = v.some_room;
                count = v.count;
                index = mod-lt (w.index + 1) v.some_room;
                begins = λ h. absurd (omega arith);
              },
              full_again w.count full ∙ sym (kept_full full),
            )
      ]
