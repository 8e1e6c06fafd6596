-- ===== src/Tests/Pipelines.antt =====
-- The facts of the theorems on pipelines, at small inputs.
use mathlib.Core.List.{filter_map, Perm}
use mpmc_queue.Prelude.{
  ◌++◌, inr, ℕ, ◌+◌, ◌*◌, ◌≡◌, refl, Bool, true, false, Option, none, some, List, [], ◌∷◌, ltb,
  head?, tail, length, subst,
}
use mpmc_queue.Prelude.Int.{pos}
use mpmc_queue.Payload.{Payload, nothing}
use mpmc_queue.ChunkedList.{ChunkedList}
use mpmc_queue.Consumer.{Consumer}
use mpmc_queue.Consumer.Batch.{IsReady}
use mpmc_queue.ConsumerGroup.{new_consumer_group}
use mpmc_queue.Queue.{Queue}
use mpmc_queue.Pipeline.{Batcher, polling, ended, upstream_done, batch_step, calls}
use mpmc_queue.Pipeline.Upstream.{Source, SourceLaws, is_nonempty}
use mpmc_queue.Pipeline.Queues.{
  consumer_source, IsOpenSource, before_consumer, consumer_source-SourceLaws, GroupView,
  group_source, IsOpenGroup, IsGroup, left_to_group, group_source-SourceLaws,
}
use mpmc_queue.Pipeline.Workers.{
  Worker, receiving, finished, Shared, prompt, worker_step, stage_step, work, keep_if,
}
use mpmc_queue.Pipeline.Batched.{flat, AreSized}
use mpmc_queue.Pipeline.Batches
use mpmc_queue.Pipeline.Batches.{batch_step-SendsAll}
use mpmc_queue.Pipeline.Delivery
use mpmc_queue.Pipeline.Delivery.{AllFinished, stage_step-DeliversOnce}
use mpmc_queue.Pipeline.Ending.{work-finished}
use mpmc_queue.Pipeline.Generator.{
  Publication, Generated, generate, done, publishing, out_of_fuel, group_view, generate-Lost,
}
use mpmc_queue.Tests.{one_item, one_item-IsLinked, one_item-IsCounted, alice, jobs, no_items}

-- A source that is a list.
abbrev shelf : Source (List ℕ) ℕ
shelf = record { try_read = λ l. (head? l, tail l); has_more_data = is_nonempty }

shelf-SourceLaws : SourceLaws shelf (λ l. Unit {0}) (λ l. l)
shelf-SourceLaws = record {
  valid = λ l h. tt;
  first = λ l h. refl;
  others = λ l h. refl;
  more = λ l h. refl;
}

one_item-IsReady : IsReady one_item 0 alice
one_item-IsReady = record { position = tt; open_ = refl; alone = refl }

-- Alice before a queue of one item, and the batcher that reads with it.
abbrev desk : ChunkedList × Consumer
desk = (one_item, alice)

abbrev desk_batcher : Batcher (ChunkedList × Consumer) Payload
desk_batcher = record { source = desk; phase = polling; batch = []; sent = [] }

batch_step-SendsAll_example :
    let k = length (before_consumer 0 desk) + 3 in
    let b' = calls (consumer_source (pos 5)) 2 k desk_batcher in
    (b'.phase ≡ ended) × (flat b'.sent ≡ before_consumer 0 desk) × AreSized 2 b'.sent
batch_step-SendsAll_example =
    batch_step-SendsAll (consumer_source (pos 5)) (IsOpenSource 0) (before_consumer 0)
      (consumer_source-SourceLaws 0 (pos 5)) 2 desk
      (one_item-IsLinked, one_item-IsCounted, one_item-IsReady) desk_batcher
      (before_consumer 0 desk) Batches.Reach.start

-- Five items in batches of two, with a tick.
abbrev shelf_batcher : Batcher (List ℕ) ℕ
shelf_batcher = record { source = 1 ∷ 2 ∷ 3 ∷ 4 ∷ 5 ∷ []; phase = polling; batch = []; sent = [] }

shelf_batches : (calls shelf 2 8 shelf_batcher).sent ≡ (1 ∷ 2 ∷ []) ∷ (3 ∷ 4 ∷ []) ∷ (5 ∷ []) ∷ []
unfolding batch_step mpmc_queue.Pipeline.poll mpmc_queue.Pipeline.collect mpmc_queue.Pipeline.flush
    mpmc_queue.Pipeline.select
shelf_batches = refl

abbrev is_small : ℕ → Bool
is_small n = ltb n 10

abbrev lost_five : List ℕ
lost_five = 5 ∷ []

abbrev shelf_start : Shared (List ℕ) ℕ
shelf_start = record { source = 4 ∷ 12 ∷ 5 ∷ []; upstream_over = false; stopped = false; sent = [] }

abbrev Shelf : Shared (List ℕ) ℕ → List (Worker ℕ) → List ℕ → List ℕ → Type 0
Shelf =
    Delivery.Reach shelf (λ l. Unit {0}) (λ l. l) shelf-SourceLaws (keep_if is_small)
      (4 ∷ 12 ∷ 5 ∷ []) 2

-- The two workers of a stage after a schedule.
abbrev run : List ℕ → Shared (List ℕ) ℕ → List (Worker ℕ) → Shared (List ℕ) ℕ × List (Worker ℕ)
run [] sh ws = (sh, ws)
run (i ∷ is) sh ws =
    let (sh', ws') = stage_step shelf (keep_if is_small) i prompt sh ws in run is sh' ws'

run-Reach :
    (is : List ℕ) (sh : Shared (List ℕ) ℕ) (ws : List (Worker ℕ)) (xs lost : List ℕ)
    → Shelf sh ws xs lost
    → Shelf (run is sh ws).0 (run is sh ws).1 xs lost
run-Reach [] sh ws xs lost r = r
run-Reach (i ∷ is) sh ws xs lost r =
    let (sh', ws') = stage_step shelf (keep_if is_small) i prompt sh ws in
    run-Reach is sh' ws' xs lost (Delivery.Reach.step r i prompt)

-- Each worker reads an item before the queue is closed, where the 5 is lost; the item 12 is dropped.
abbrev schedule : List ℕ
schedule = 1 ∷ 0 ∷ 0 ∷ 0 ∷ 0 ∷ 0 ∷ 1 ∷ 1 ∷ 1 ∷ []

abbrev early : Shared (List ℕ) ℕ × List (Worker ℕ)
early = run (0 ∷ 1 ∷ []) shelf_start (receiving ∷ receiving ∷ [])

abbrev shut_down : Shared (List ℕ) ℕ
shut_down = record early.0 { source = []; stopped = true; upstream_over = true }

abbrev late : Shared (List ℕ) ℕ × List (Worker ℕ)
late = run schedule shut_down early.1

abbrev all_over : Shared (List ℕ) ℕ
all_over = record { source = []; upstream_over = true; stopped = true; sent = 4 ∷ [] }

late_lem : late ≡ (all_over, finished ∷ finished ∷ [])
unfolding stage_step worker_step
late_lem = refl

late-Reach : Shelf late.0 late.1 (4 ∷ 12 ∷ 5 ∷ []) (early.0.source ++ [])
late-Reach = run-Reach schedule shut_down early.1 (4 ∷ 12 ∷ 5 ∷ []) (early.0.source ++ []) (
    Delivery.Reach.close_done (
      Delivery.Reach.close_queue
        (run-Reach (0 ∷ 1 ∷ []) shelf_start (receiving ∷ receiving ∷ []) (4 ∷ 12 ∷ 5 ∷ []) []
          Delivery.Reach.start)
        [] tt refl))

early_left : early.0.source ++ [] ≡ 5 ∷ []
unfolding stage_step worker_step
early_left = refl

over-Reach : Shelf all_over (finished ∷ finished ∷ []) (4 ∷ 12 ∷ 5 ∷ []) (5 ∷ [])
over-Reach =
    subst (λ r. Shelf r.0 r.1 (4 ∷ 12 ∷ 5 ∷ []) (5 ∷ [])) late_lem
      (subst (λ l. Shelf late.0 late.1 (4 ∷ 12 ∷ 5 ∷ []) l) early_left late-Reach)

stage_step-DeliversOnce_example :
    (handled : List ℕ) × (4 ∷ [] ≡ filter_map (keep_if is_small) handled)
    × Perm (handled ++ 5 ∷ []) (4 ∷ 12 ∷ 5 ∷ [])
    × (true ≡ false → lost_five ≡ [])
stage_step-DeliversOnce_example =
    stage_step-DeliversOnce shelf (λ l. Unit {0}) (λ l. l) shelf-SourceLaws (keep_if is_small)
      (4 ∷ 12 ∷ 5 ∷ []) 2 tt all_over finished (finished ∷ []) (4 ∷ 12 ∷ 5 ∷ []) (5 ∷ []) over-Reach
      (refl, (refl, tt))

-- A group that reads from the queue of one item.
abbrev team_view : GroupView
team_view = record { queue_closed = false; items = one_item; group = new_consumer_group 7 "team" }

team_view-IsOpenGroup : IsOpenGroup 0 team_view
unfolding new_consumer_group
team_view-IsOpenGroup = record {
  linked = one_item-IsLinked;
  counted = one_item-IsCounted;
  position = tt;
  queue_open = refl;
  group_open = refl;
}

abbrev team_shared : Shared GroupView Payload
team_shared = record { source = team_view; upstream_over = true; stopped = false; sent = [] }

work-finished_example :
    (work group_source some (length (left_to_group 0 team_view) * 4 + 5) team_shared receiving).1
    ≡ finished
work-finished_example =
    work-finished group_source (IsGroup 0) (left_to_group 0) (group_source-SourceLaws 0) some
      team_shared receiving (inr team_view-IsOpenGroup) refl

abbrev first_log : Publication
first_log = record { now = pos 5; item = nothing; meanwhile = λ q. q; wakes = [] }

abbrev logs : Queue
logs = record jobs { items = no_items }

-- A generator that publishes one item.
abbrev one_log : Generated
one_log = generate (first_log ∷ []) 3 logs

abbrev queue_of : Generated → Queue
queue_of (done n q es) = q
queue_of (publishing q) = q
queue_of out_of_fuel = logs

one_log-done : one_log ≡ done 4 (queue_of one_log) (none ∷ [])
unfolding generate mpmc_queue.Queue.Blocking.enqueue mpmc_queue.Queue.Blocking.begin_enqueue
    mpmc_queue.Queue.Blocking.enqueue_round mpmc_queue.Queue.Blocking.end_round
    mpmc_queue.Waiting.await mpmc_queue.Queue.new_queue_with_config mpmc_queue.Queue.new_sized_data
    mpmc_queue.Data.new_queue_data mpmc_queue.Memory.Estimate.estimate_queue_data_size
    mpmc_queue.Memory.Estimate.estimate_payload_size mpmc_queue.Memory.Estimate.safe_add
    mpmc_queue.Memory.new_memory_tracker mpmc_queue.Memory.can_add_data
    mpmc_queue.ChunkedList.new_chunked_list mpmc_queue.ChunkedList.enqueue
    mpmc_queue.ChunkedList.place mpmc_queue.ChunkedList.last_chunk
    mpmc_queue.ChunkedList.add_to_chunk mpmc_queue.Chunk.add mpmc_queue.Prelude.Int64.sub64
    mpmc_queue.Prelude.Int64.add64 mpmc_queue.Prelude.Int64.wrap64 mpmc_queue.Prelude.Int.◌-ℤ◌
    mpmc_queue.Prelude.Int.◌+ℤ◌
one_log-done = refl

generate-Lost_example :
    let g = new_consumer_group 7 "team" in
    let sh : Shared GroupView Payload = record {
      source = group_view (queue_of one_log) g;
      upstream_over = true;
      stopped = true;
      sent = [];
    } in
    work group_source some 3 sh receiving ≡ (sh, finished)
generate-Lost_example =
    generate-Lost (first_log ∷ []) 3 4 logs (queue_of one_log) (none ∷ [])
      (new_consumer_group 7 "team") some [] one_log-done
