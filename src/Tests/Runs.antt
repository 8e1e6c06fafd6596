-- ===== src/Tests/Runs.antt =====
-- The facts of the theorems on calls of TryRead that interleave, at small inputs.
use mpmc_queue.Prelude.{ℕ, zero, suc, refl, inl, inr, arith, Option-cases}
use mpmc_queue.ChunkedList.{new_chunked_list}
use mpmc_queue.ConsumerGroup.Members.{member_steps}
use mpmc_queue.Schedule.{Steps, World, step_call, act, Reach, begin, next}
use mpmc_queue.Schedule.Safety.{Keeps}
use mpmc_queue.Schedule.Stored.{AllStored}
use mpmc_queue.Consumer.Callers.{ReadPoint, caller_steps}
use mpmc_queue.Consumer.Callers.Safety.{
  IsFirst, AnyTime, Alone, unread_consumer, front_position, caller-Descends, callers-AllStored,
}
use mpmc_queue.Schedule.Order.{Descends}
use mpmc_queue.Schedule.Links.{Forward, Forward-enqueue}
use mpmc_queue.ConsumerGroup.Members.Safety.{
  Group, AnyMember, NoneFetched, Calm, unread_group, members-Descends, members-AllStored,
}
use mpmc_queue.Tests.{item_of, no_items, no_items-IsLinked, one_item, one_item-IsLinked}

-- Calls on a reader whose list has one item.
no_links : Forward no_items
unfolding new_chunked_list
no_links e f h = absurd (ground arith)

one_item-Forward : Forward one_item
one_item-Forward = Forward-enqueue no_items 0 (item_of 1) no_items-IsLinked no_links

-- Call `k` takes up to `n` steps.
walk :
    {P : Type 0} (s : Steps P) (May : ℕ → Type 0) (Quiet : (ℕ → P) → Type 0) (k : ℕ)
    → May k
    → (n : ℕ) (start w : World P) (r : Reach s start w) → Keeps May Quiet r
    → (w' : World P) × (r' : Reach s start w') × Keeps May Quiet r'
walk s May Quiet k may zero start w r c = (w, r, c)
walk s May Quiet k may (suc n) start w r c = elim (Option-cases (act s (step_call k) w)) [
  | inl e ↦ (w, r, c)
  | inr (w', e) ↦ walk s May Quiet k may n start w' (next (step_call k) w w' r e) (c, may)
]

walked : (w' : Group) × (r' : Reach member_steps (unread_group one_item) w') × Calm r'
walked =
    walk member_steps AnyMember NoneFetched 1 tt 9 (unread_group one_item) (unread_group one_item)
      begin tt

members-Descends_example : Descends walked.0.delivered
members-Descends_example =
    members-Descends one_item 0 one_item-IsLinked one_item-Forward walked.0 walked.1 walked.2

called :
    (w' : World ReadPoint) × (r' : Reach caller_steps
      (unread_consumer one_item (front_position one_item))
      w')
    × Alone r'
called =
    walk caller_steps IsFirst AnyTime 0 refl 9 (unread_consumer one_item (front_position one_item))
      (unread_consumer one_item (front_position one_item)) begin tt

caller-Descends_example : Descends called.0.delivered
caller-Descends_example =
    caller-Descends one_item 0 one_item-IsLinked one_item-Forward (front_position one_item)
      (inr refl) called.0 called.1 called.2

members-AllStored_example : AllStored walked.1 walked.0.delivered
members-AllStored_example = members-AllStored one_item walked.0 walked.1

callers-AllStored_example : AllStored called.1 called.0.delivered
callers-AllStored_example = callers-AllStored one_item (front_position one_item) called.0 called.1
