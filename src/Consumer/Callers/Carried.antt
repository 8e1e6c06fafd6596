-- ===== src/Consumer/Callers/Carried.antt =====
-- What a call on a consumer carries out of `TryRead` (queue/consumer.go): the copy that it made.
use mpmc_queue.Prelude.{
  ℕ, ◌≡◌, ◌⊎◌, Bool, true, false, Option, none, some, arith, ltb, if◌then◌else◌,
}
use mpmc_queue.ChunkedList.{ChunkedList}
use mpmc_queue.Cursor.{Cursor}
use mpmc_queue.ConsumerGroup.Members.{
  outside, entered, uninitialized, fetched, looping, checking, resetting, sizing, copying, holding,
  missing, skipping, ended, linking,
}
use mpmc_queue.ConsumerGroup.Members.Carried.{Carries, member_step-Hands}
use mpmc_queue.Consumer.Callers.{ReadPoint, shared, jumping, caller_step, caller_steps}
use mpmc_queue.Schedule.{Delivery}
use mpmc_queue.Schedule.Stored.{IsStored, Handling}

abbrev pub CallerCarries : ReadPoint → Delivery → Type 0
CallerCarries (shared p) d = Carries p d
CallerCarries (jumping e i h) d = ⊥

module _ (cl : ChunkedList) (cur : Cursor) (closed : Bool) where
  abbrev Hands : ReadPoint → ReadPoint → Option Delivery → Type 0
  Hands p q out =
      ((d : Delivery) → (out ≡ some d) → CallerCarries p d)
      × ((d : Delivery) → CallerCarries q d → CallerCarries p d ⊎ IsStored cl d)

  misses :
      (b : Bool) (e i h : ℕ)
      → Hands (shared (missing e i)) (if b then jumping e i h else shared outside) none
  misses true e i h = (λ d e'. absurd (ground arith), λ d c. absurd c)
  misses false e i h = (λ d e'. absurd (ground arith), λ d c. absurd (ground arith))

  caller_step-Hands : (p : ReadPoint) → let r = caller_step closed cl cur p in Hands p r.0 r.2
  unfolding caller_step
  caller_step-Hands (jumping e i h) = (λ d e'. absurd (ground arith), λ d c. absurd (ground arith))
  caller_step-Hands (shared (fetched f)) =
      (λ d e'. absurd (ground arith), λ d c. absurd (ground arith))
  caller_step-Hands (shared (missing e i)) =
      misses (ltb i (cl.chunks e).head) e i (cl.chunks e).head
  caller_step-Hands (shared outside) = member_step-Hands cl cur closed outside
  caller_step-Hands (shared entered) = member_step-Hands cl cur closed entered
  caller_step-Hands (shared uninitialized) = member_step-Hands cl cur closed uninitialized
  caller_step-Hands (shared looping) = member_step-Hands cl cur closed looping
  caller_step-Hands (shared (checking e i)) = member_step-Hands cl cur closed (checking e i)
  caller_step-Hands (shared (resetting e)) = member_step-Hands cl cur closed (resetting e)
  caller_step-Hands (shared (sizing e i)) = member_step-Hands cl cur closed (sizing e i)
  caller_step-Hands (shared (copying e i)) = member_step-Hands cl cur closed (copying e i)
  caller_step-Hands (shared (holding e i d)) = member_step-Hands cl cur closed (holding e i d)
  caller_step-Hands (shared (skipping e i)) = member_step-Hands cl cur closed (skipping e i)
  caller_step-Hands (shared (ended e i)) = member_step-Hands cl cur closed (ended e i)
  caller_step-Hands (shared (linking e i o)) = member_step-Hands cl cur closed (linking e i o)

pub callers-Handling : Handling caller_steps CallerCarries
callers-Handling = record {
  given = λ closed cl cur p d h. (caller_step-Hands cl cur closed p).0 d h;
  taken = λ closed cl cur p d c. (caller_step-Hands cl cur closed p).1 d c;
}
