-- ===== src/Consumer/Laws.antt =====
-- A consumer fills the interface of `TryRead`, and its history keeps to its bound.
use mpmc_queue.Prelude.{
  ℕ, ◌+◌, ◌-◌, ◌≤◌, ◌<◌, ◌≡◌, refl, ap, ◌∙◌, ◌++◌, List, [], ◌∷◌, arith, length, drop, length-drop,
  length-append, lt-or-le, inl, inr, drop-append, lt→ltb, le→not_ltb,
}
use mpmc_queue.Prelude.Int.{ℤ}
use mpmc_queue.Data.{QueueData}
use mpmc_queue.Reader.{ReaderLaws}
use mpmc_queue.Consumer.{
  Consumer, DequeueRecord, consumer_reader, note_read, add_to_history, trimmed,
}

pub consumer_reader-ReaderLaws : (now : ℤ) → ReaderLaws (consumer_reader now)
unfolding note_read add_to_history
consumer_reader-ReaderLaws now = record {
  cursor-put = λ cur c. refl;
  put-cursor = λ c. refl;
  put-put = λ a b c. refl;
  skip_onward = λ h i lt. omega arith;
  skip_within = λ h i lt. omega arith;
}

trimmed_lem :
    (max : ℕ) (history : List DequeueRecord)
    → trimmed max history ≡ drop (length history - max) history
trimmed_lem max history = elim (lt-or-le max (length history)) [
  | inl lt ↦ rw (lt→ltb max (length history) lt) refl
  | inr le ↦
      let none_over : 0 ≡ length history - max = omega arith in
      rw (le→not_ltb max (length history) le) (ap (λ k. drop k history) none_over)
]

-- For a positive bound, the record of an item that was read goes behind the newest records and the
-- oldest make room: the history is never longer than its bound, whatever it was.
pub note_read-history :
    (now : ℤ) (d : QueueData) (c : Consumer)
    → 0 < c.max_history
    → let entry : DequeueRecord = record { data_id = d.id; timestamp = now } in
      let h = c.dequeue_history in
      let h' = (note_read now d c).dequeue_history in
      (h' ≡ drop (length h + 1 - c.max_history) h ++ entry ∷ []) × (length h' ≤ c.max_history)
unfolding note_read add_to_history
note_read-history now d c some_room =
    let entry : DequeueRecord = record { data_id = d.id; timestamp = now } in
    let h = c.dequeue_history in
    let k = length h + 1 - c.max_history in
    let n : length (h ++ entry ∷ []) ≡ length h + 1 = length-append h (entry ∷ []) in
    let all : trimmed c.max_history (h ++ entry ∷ []) ≡ drop k (h ++ entry ∷ []) =
      trimmed_lem c.max_history (h ++ entry ∷ [])
      ∙ ap (λ j. drop (j - c.max_history) (h ++ entry ∷ [])) n in
    (
      all ∙ drop-append k h (entry ∷ []) (omega arith),
      omega (arith, ap length all, n, length-drop k (h ++ entry ∷ [])),
    )
