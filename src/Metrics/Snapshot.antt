-- ===== src/Metrics/Snapshot.antt =====
-- `GetSnapshot` (queue/metrics.go) copies a window in the order of its slots; what it computes is that of the
-- latest samples.
use mpmc_queue.Prelude.{
  ℕ, ◌+◌, ◌-◌, ◌*◌, ◌/◌, ◌≤◌, ◌<◌, ◌≡◌, refl, ap, ◌∙◌, inl, inr, Bool, List, [], ◌∷◌, ◌++◌, arith,
  length, lt-or-le, lt→ltb, le→not_ltb, cells, cells-append, length-cells,
}
use mpmc_queue.Prelude.Int.{ℤ, ltb_ℤ, leb_ℤ}
use mpmc_queue.Queue.{Queue}
use mpmc_queue.Metrics.{Window, Metrics, copied, calculate_p95, get_snapshot}
use mpmc_queue.Metrics.Recent.{IsWindow, recent}
use mpmc_queue.Metrics.Rank.{count_if, count_below, count_upto, calculate_p95-rank}

count_if-append :
    (b : ℤ → Bool) (xs ys : List ℤ) → count_if b (xs ++ ys) ≡ count_if b xs + count_if b ys
count_if-append b [] ys = omega arith
count_if-append b (x ∷ xs) ys = ground (arith, count_if-append b xs ys)

-- Both orders of a window hold the same samples.
count_if-copied :
    (b : ℤ → Bool) (max : ℕ) (w : Window)
    → IsWindow max w
    → count_if b (copied w) ≡ count_if b (recent max w)
count_if-copied b max w v = elim (lt-or-le w.count max) [
  | inl lt ↦ rw (lt→ltb w.count max lt) refl
  | inr le ↦
      let n : w.count ≡ w.index + (max - w.index) = omega (arith, v.count, v.index) in
      let z : 0 + w.index ≡ w.index = omega arith in
      let slots : copied w ≡ cells w.samples 0 w.index ++ cells w.samples w.index (max - w.index) =
        ap (cells w.samples 0) n ∙ cells-append w.samples 0 w.index (max - w.index) ∙ rw z refl in
      let all = recent max w in
      let full : all ≡ cells w.samples w.index (max - w.index) ++ cells w.samples 0 w.index =
        rw (le→not_ltb w.count max le) refl in
      omega (
        arith,
        ap (count_if b) slots,
        ap (count_if b) full,
        count_if-append b (cells w.samples 0 w.index) (cells w.samples w.index (max - w.index)),
        count_if-append b (cells w.samples w.index (max - w.index)) (cells w.samples 0 w.index),
      )
]

list-rank :
    (xs : List ℤ)
    → 0 < length xs
    → (count_below (calculate_p95 xs) xs ≤ length xs * 19 / 20)
      × (length xs * 19 / 20 < count_upto (calculate_p95 xs) xs)
list-rank [] h = absurd (omega arith)
list-rank (x ∷ xs) h = calculate_p95-rank x xs

-- The 95th percentile of a window that is not empty has its rank among the latest samples.
percentile-rank :
    (max : ℕ) (w : Window)
    → IsWindow max w
    → 0 < w.count
    → let p = calculate_p95 (copied w) in
      (count_below p (recent max w) ≤ w.count * 19 / 20)
      × (w.count * 19 / 20 < count_upto p (recent max w))
percentile-rank max w v h =
    let p = calculate_p95 (copied w) in
    let n = length-cells w.samples 0 w.count in
    let (below, upto) = list-rank (copied w) (omega (arith, n)) in
    let same : length (copied w) * 19 / 20 ≡ w.count * 19 / 20 = ap (λ k. k * 19 / 20) n in
    (
      omega (arith, below, same, count_if-copied (λ x. ltb_ℤ x p) max w v),
      omega (arith, upto, same, count_if-copied (λ x. leb_ℤ x p) max w v),
    )

-- The 95th percentiles in a snapshot of windows that are not empty have their rank among the
-- latest samples: at most 95 in 100 of the samples, rounded down, are less, and more than that are
-- not greater.
pub get_snapshot-percentiles :
    (now : ℤ) (q : Queue) (m : Metrics)
    → IsWindow m.max_latency_samples m.enqueue_latency
    → IsWindow m.max_latency_samples m.dequeue_latency
    → 0 < m.enqueue_latency.count
    → 0 < m.dequeue_latency.count
    → let s = get_snapshot now q m in
      let enqueued = recent m.max_latency_samples m.enqueue_latency in
      let dequeued = recent m.max_latency_samples m.dequeue_latency in
      (count_below s.p95_enqueue_latency enqueued ≤ m.enqueue_latency.count * 19 / 20)
      × (m.enqueue_latency.count * 19 / 20 < count_upto s.p95_enqueue_latency enqueued)
      × (count_below s.p95_dequeue_latency dequeued ≤ m.dequeue_latency.count * 19 / 20)
      × (m.dequeue_latency.count * 19 / 20 < count_upto s.p95_dequeue_latency dequeued)
unfolding get_snapshot
get_snapshot-percentiles now q m v v' h h' =
    let (a, b) = percentile-rank m.max_latency_samples m.enqueue_latency v h in
    let (c, d) = percentile-rank m.max_latency_samples m.dequeue_latency v' h' in (a, b, c, d)
