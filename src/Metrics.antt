-- ===== src/Metrics.antt =====
-- queue/metrics.go: the counters of a queue's operations, and the windows of their latest durations. The
-- fields of a snapshot that are floating-point numbers are left out; no call sets the rates.
pub mod Recent
pub mod Rank
pub mod Snapshot
use Prim.Native.String.{String}
use Prim.Native.Nat.{◌/◌, ◌%◌}
use mpmc_queue.Prelude.{
  ℕ, zero, suc, ◌+◌, ◌-◌, ◌*◌, Bool, true, false, Option, none, some, List, [], ◌∷◌, ltb, leb,
  if◌then◌else◌, length, cells, update,
}
use mpmc_queue.Prelude.Int.{ℤ, pos, negsuc, sub_ℕ, ltb_ℤ}
use mpmc_queue.Prelude.Int64.{add64}
use mpmc_queue.Errors.{Error, memory_limit}
use mpmc_queue.Queue.{Queue}
use mpmc_queue.Queue.Manager.{get_all_consumers}

-- The slice of one kind of latency, with the index of the next sample and their number.
pub record Window : Type 0 where
  pub samples : ℕ → ℤ
  pub index : ℕ
  pub count : ℕ

pub record Metrics : Type 0 where
  pub total_enqueued : ℤ
  pub total_dequeued : ℤ
  pub total_expired : ℤ
  pub enqueue_errors : ℤ
  pub memory_limit_hits : ℤ
  pub enqueue_latency : Window
  pub dequeue_latency : Window
  pub max_latency_samples : ℕ

abbrev pub new_window : Window
new_window = record { samples = λ _. pos 0; index = 0; count = 0 }

unfoldable pub new_metrics : Metrics
new_metrics = record {
  total_enqueued = pos 0;
  total_dequeued = pos 0;
  total_expired = pos 0;
  enqueue_errors = pos 0;
  memory_limit_hits = pos 0;
  enqueue_latency = new_window;
  dequeue_latency = new_window;
  max_latency_samples = 1000;
}

-- The lines by which both recording calls store a sample.
unfoldable pub record_sample : ℕ → ℤ → Window → Window
record_sample max d w = record {
  samples = update w.samples w.index d;
  index = (w.index + 1) % max;
  count = if ltb w.count max then w.count + 1 else w.count;
}

-- The error counters. A memory limit counts only where it is the error itself.
abbrev pub count_error : Option Error → Metrics → Metrics
count_error none m = m
count_error (some (memory_limit current maximum needed)) m = record m {
  enqueue_errors = add64 m.enqueue_errors (pos 1);
  memory_limit_hits = add64 m.memory_limit_hits (pos 1);
}
count_error (some _) m = record m { enqueue_errors = add64 m.enqueue_errors (pos 1) }

unfoldable pub record_enqueue : ℤ → Option Error → Metrics → Metrics
record_enqueue duration failed m =
    let m' = count_error failed (record m { total_enqueued = add64 m.total_enqueued (pos 1) }) in
    record m' { enqueue_latency = record_sample m'.max_latency_samples duration m'.enqueue_latency }

unfoldable pub record_dequeue : ℤ → Metrics → Metrics
record_dequeue duration m = record m {
  total_dequeued = add64 m.total_dequeued (pos 1);
  dequeue_latency = record_sample m.max_latency_samples duration m.dequeue_latency;
}

unfoldable pub record_expired : ℤ → Metrics → Metrics
record_expired count m = record m { total_expired = add64 m.total_expired count }

abbrev pub sum64 : ℤ → List ℤ → ℤ
sum64 total [] = total
sum64 total (d ∷ ds) = sum64 (add64 total d) ds

-- Go's division by a positive number, which rounds to zero.
abbrev pub div_by : ℤ → ℕ → ℤ
div_by (pos n) k = pos (n / k)
div_by (negsuc n) k = sub_ℕ 0 (suc n / k)

unfoldable pub calculate_avg : List ℤ → ℤ
calculate_avg [] = pos 0
calculate_avg (d ∷ ds) = div_by (sum64 (pos 0) (d ∷ ds)) (length (d ∷ ds))

abbrev pub insert : ℤ → List ℤ → List ℤ
insert x [] = x ∷ []
insert x (y ∷ ys) = if ltb_ℤ y x then y ∷ insert x ys else x ∷ y ∷ ys

-- `sort.Slice` by `<`; the order of equal numbers does not show.
abbrev pub sort : List ℤ → List ℤ
sort [] = []
sort (x ∷ xs) = insert x (sort xs)

abbrev pub nth : List ℤ → ℕ → ℤ
nth [] i = pos 0
nth (x ∷ xs) zero = x
nth (x ∷ xs) (suc i) = nth xs i

-- `int(float64(n) * 0.95)`; the product is exact enough for the 1000 samples of a window.
abbrev pub rank_95 : ℕ → ℕ
rank_95 n = let i = n * 19 / 20 in if leb n i then n - 1 else i

unfoldable pub calculate_p95 : List ℤ → ℤ
calculate_p95 [] = pos 0
calculate_p95 (d ∷ ds) = nth (sort (d ∷ ds)) (rank_95 (length (d ∷ ds)))

-- The copy of a window that a snapshot is made of.
abbrev pub copied : Window → List ℤ
copied w = cells w.samples 0 w.count

pub record MetricsSnapshot : Type 0 where
  pub queue_name : String
  pub total_items : ℤ
  pub memory_usage : ℤ
  pub consumer_count : ℕ
  pub counters : Metrics
  pub avg_enqueue_latency : ℤ
  pub p95_enqueue_latency : ℤ
  pub avg_dequeue_latency : ℤ
  pub p95_dequeue_latency : ℤ
  pub timestamp : ℤ

unfoldable pub get_snapshot : ℤ → Queue → Metrics → MetricsSnapshot
get_snapshot now q m = record {
  queue_name = q.name;
  total_items = q.items.total_items;
  memory_usage = q.items.memory_tracker.total_memory;
  consumer_count = length q.consumers.consumers;
  counters = m;
  avg_enqueue_latency = calculate_avg (copied m.enqueue_latency);
  p95_enqueue_latency = calculate_p95 (copied m.enqueue_latency);
  avg_dequeue_latency = calculate_avg (copied m.dequeue_latency);
  p95_dequeue_latency = calculate_p95 (copied m.dequeue_latency);
  timestamp = now;
}

unfoldable pub reset : Metrics → Metrics
reset m = record m {
  total_enqueued = pos 0;
  total_dequeued = pos 0;
  total_expired = pos 0;
  enqueue_errors = pos 0;
  memory_limit_hits = pos 0;
  enqueue_latency = record m.enqueue_latency { index = 0; count = 0 };
  dequeue_latency = record m.dequeue_latency { index = 0; count = 0 };
}
