-- ===== src/Tests/Programs.antt =====
-- The facts of the theorems on the programs that use queues, at small inputs.
use Prim.Native.String.{String}
use mpmc_queue.Prelude.{
  ℕ, arith, ap, ◌∙◌, ◌++◌, ◌≡◌, refl, Option, some, List, [], ◌∷◌, map, length,
}
use mpmc_queue.Prelude.Int.{ℤ, pos}
use mpmc_queue.Payload.{Payload, string_of_length}
use mpmc_queue.Errors.{
  ContextError, Error, queue_closed, memory_limit, enqueue_failed, error_text,
  consumer_not_found_text, invalid_position_text,
}
use mpmc_queue.ChunkedList.{new_chunked_list}
use mpmc_queue.ChunkedList.Links.{contents}
use mpmc_queue.Consumer.Batch.{IsReady}
use mpmc_queue.Queue.{Queue}
use mpmc_queue.Queue.Enqueue.{OneOrNone}
use mpmc_queue.Pipeline.Queues.{before_consumer}
use mpmc_queue.WorkerPool.{stopped, pool_steps}
use mpmc_queue.WorkerPool.Everyone.{beginning, pool_steps-EachDoesAll}
use mpmc_queue.Data.{QueueData}
use mpmc_queue.Shell.{Shell, Line, empty_shell, handle_pub, session}
use mpmc_queue.Shell.Book.{lookup}
use mpmc_queue.Shell.Laws.{IsShell}
use mpmc_queue.Shell.Session.{Says, session-IsShell, handle_pub-Posts}
use mpmc_queue.Tests.{
  layout64, one_item, one_item-Appends, item_of, no_items, one_item-IsLinked, one_item-IsCounted,
  three_items-IsLinked, alice, jobs,
}

alice-IsReady_one : IsReady one_item 0 alice
alice-IsReady_one = record { position = tt; open_ = refl; alone = refl }

no_items-contents : contents no_items 0 ≡ []
unfolding new_chunked_list
no_items-contents = refl

alice_ahead : length (before_consumer 0 (one_item, alice)) ≡ 1
alice_ahead =
    ap (λ ds. length (map (λ (d : QueueData). d.payload) ds))
      (one_item-Appends.all ∙ ap (λ ds. ds ++ item_of 1 ∷ []) no_items-contents)

-- Two workers with consumers before the one job, whose steps alternate.
abbrev shifts : List ℕ
shifts = 0 ∷ 1 ∷ 0 ∷ 1 ∷ 0 ∷ 1 ∷ 0 ∷ 1 ∷ []

abbrev numbered : ℕ → Payload → ℕ × Payload
numbered k job = (k, job)

pool_steps-EachDoesAll_example :
    let ((c, sent), where_) =
      (pool_steps
          (pos 5)
          numbered
          shifts
          (beginning (pos 5) numbered one_item (λ k. alice))).workers
        1 in
    (where_ ≡ stopped) × (sent ≡ map (numbered 1) (before_consumer 0 (one_item, alice)))
pool_steps-EachDoesAll_example =
    pool_steps-EachDoesAll (pos 5) numbered one_item 0 (λ k. alice)
      (λ k. (one_item-IsLinked, one_item-IsCounted, alice-IsReady_one)) shifts 1
      (omega (arith, alice_ahead))

-- Every number is read as 60.
abbrev sixty : String → Option ℤ
sixty w = some (pos 60)

abbrev line_of : List String → Line
line_of fields = record { now = pos 5; id = 9; fields = fields }

abbrev script : List Line
script =
    line_of ("create" ∷ "logs" ∷ "60" ∷ [])
    ∷ line_of ("create" ∷ "logs" ∷ [])
    ∷ line_of ("sub" ∷ "logs" ∷ [])
    ∷ line_of ("pub" ∷ "logs" ∷ "two" ∷ "words" ∷ [])
    ∷ line_of ("exit" ∷ [])
    ∷ line_of ("list" ∷ [])
    ∷ []

empty_shell-IsShell : IsShell empty_shell
empty_shell-IsShell = record { shelved = tt; found = tt }

session-IsShell_example : IsShell (session sixty layout64 script empty_shell).0
session-IsShell_example = session-IsShell sixty layout64 script empty_shell empty_shell-IsShell

abbrev office : Shell
office = record { queues = ("jobs", jobs) ∷ []; consumers = []; sequence = 3 }

handle_pub-Posts_example :
    let (sh', r) = handle_pub (pos 5) ("jobs" ∷ "run" ∷ "now" ∷ []) office in
    (q' : Queue) × (failed : Option Error) × Says failed r
    × OneOrNone jobs 0 (string_of_length 7) (q', failed)
    × (lookup "jobs" sh'.queues ≡ some q')
handle_pub-Posts_example =
    handle_pub-Posts (pos 5) "jobs" "run" ("now" ∷ []) office jobs 0 "jobs" refl
      three_items-IsLinked

-- The texts of errors, with a decimal that writes one digit.
abbrev digit : ℤ → String
digit n = "7"

abbrev of_context : ContextError → String
of_context e = "context canceled"

text_of_closed : error_text digit of_context (queue_closed "") ≡ "queue closed"
unfolding error_text
text_of_closed = refl

text_of_failed :
    error_text digit of_context (enqueue_failed (memory_limit (pos 7) (pos 7) (pos 7)))
    ≡ "enqueue failed: memory limit exceeded: current=7, max=7, needed=7"
unfolding error_text
text_of_failed = refl

text_of_missing : consumer_not_found_text "alice" ≡ "consumer not found: alice"
unfolding consumer_not_found_text
text_of_missing = refl

text_of_position :
    invalid_position_text digit (pos 7) "behind the end" ≡ "invalid position 7: behind the end"
unfolding invalid_position_text
text_of_position = refl
