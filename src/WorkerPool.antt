-- ===== src/WorkerPool.antt =====
-- The loop of examples/patterns/worker_pool.go that reads jobs and sends results, `worker`. Each worker
-- reads with a consumer of its own. What is passed to `TryEnqueue`, whose error is printed, is a list.
pub mod Results
pub mod Everyone
use Prim.Native.String.{String, ◌++◌ as join}
use mpmc_queue.Prelude.{
  ℕ, zero, suc, ◌*◌, ◌<◌, Bool, true, false, Option, none, some, List, [], ◌∷◌, ◌++◌, if◌then◌else◌,
  update,
}
use mpmc_queue.Prelude.Int.{ℤ, pos, negsuc}
use mpmc_queue.Prelude.Int64.{wrap64, add64}
use mpmc_queue.Payload.{Payload}
use mpmc_queue.ChunkedList.{ChunkedList}
use mpmc_queue.Consumer.{Consumer}
use mpmc_queue.Pipeline.Upstream.{Source}
use mpmc_queue.Pipeline.Queues.{consumer_source}

-- At the head of the loop, at `HasMoreData`, with a job, and at the end.
pub data Loop (A : Type 0) : Type 0 where
  fetching : Loop A
  asking : Loop A
  working : A → Loop A
  stopped : Loop A

abbrev pub after_fetch : {A : Type 0} → Option A → Loop A
after_fetch none = asking
after_fetch (some a) = working a

-- `cancelled` is that the worker finds its context done.
unfoldable pub loop_step :
    {S A B : Type 0} → Source S A → (A → B) → Bool → S × List B → Loop A → (S × List B) × Loop A
loop_step src process cancelled (s, out) fetching =
    if cancelled
    then ((s, out), stopped)
    else let (job, s') = src.try_read s in ((s', out), after_fetch job)
loop_step src process cancelled (s, out) asking =
    ((s, out), if src.has_more_data s then fetching else stopped)
loop_step src process cancelled (s, out) (working a) = ((s, out ++ process a ∷ []), fetching)
loop_step src process cancelled (s, out) stopped = ((s, out), stopped)

-- `k` steps of a loop that is not cancelled.
abbrev pub loop_steps :
    {S A B : Type 0} → Source S A → (A → B) → ℕ → (S × List B) × Loop A → (S × List B) × Loop A
loop_steps src process zero r = r
loop_steps src process (suc k) r = loop_steps src process k (loop_step src process false r.0 r.1)

-- The workers of a pool: each has a consumer of its own at the one queue of jobs, and its results.
pub record Pool (B : Type 0) : Type 0 where
  pub items : ChunkedList
  pub workers : ℕ → (Consumer × List B) × Loop Payload

-- A step of worker `k`, that is not cancelled. `now` is the clock.
unfoldable pub pool_step : {B : Type 0} → ℤ → (ℕ → Payload → B) → ℕ → Pool B → Pool B
pool_step now process k p =
    let ((c, out), where_) = p.workers k in
    let (((items, c'), out'), where') =
      loop_step (consumer_source now) (process k) false ((p.items, c), out) where_ in
    record { items = items; workers = update p.workers k ((c', out'), where') }

-- A run: the numbers of the workers that take the steps, in order.
abbrev pub pool_steps : {B : Type 0} → ℤ → (ℕ → Payload → B) → List ℕ → Pool B → Pool B
pool_steps now process [] p = p
pool_steps now process (k ∷ ks) p = pool_steps now process ks (pool_step now process k p)

pub record Job : Type 0 where
  pub id : ℕ
  pub payload : String

pub record JobResult : Type 0 where
  pub job_id : ℕ
  pub text : String

-- `show` and `show_payload` are fmt's `%d` and `%v`.
abbrev pub process_job : (ℕ → String) → ℕ → Job → JobResult
process_job show worker_id job = record {
  job_id = job.id;
  text = join "Processed by worker " (join (show worker_id) (join ": " job.payload));
}
