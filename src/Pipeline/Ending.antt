-- ===== src/Pipeline/Ending.antt =====
-- A worker of `Map` (examples/patterns/data_pipeline.go) comes to its end once the stages before are
-- done.
use mpmc_queue.Prelude.{
  ℕ, zero, suc, ◌+◌, ◌-◌, ◌*◌, ◌≤◌, ◌≡◌, refl, sym, ap, subst, ◌∙◌, Bool, true, false, Option, none,
  some, List, [], ◌∷◌, tail, length, arith, whenever,
}
use mpmc_queue.Pipeline.Upstream.{Source, SourceLaws}
use mpmc_queue.Pipeline.Workers.{
  Worker, receiving, draining, checking, handling, sending, finished, Shared, prompt, passed_on,
  worker_step, work,
}

module _ {S A B : Type 0} (src : Source S A) (IsValid : S → Type 0) (left : S → List A)
    (laws : SourceLaws src IsValid left) (transform : A → Option B) where
  -- A bound on the steps to the end, where items `l` are left.
  abbrev to_go : Worker A → List A → ℕ
  to_go receiving l = length l * 4 + 3
  to_go draining l = length l * 4 + 2
  to_go checking [] = 1
  to_go checking (a ∷ l) = length l * 4 + 7
  to_go (handling false a) l = length l * 4 + 5
  to_go (handling true a) l = length l * 4 + 4
  to_go (sending false) l = length l * 4 + 4
  to_go (sending true) l = length l * 4 + 3
  to_go finished l = 0

  -- A step is one less to go, from where `l` was left.
  abbrev Nearer : ℕ → Shared S B × Worker A → Type 0
  Nearer k (sh, w) = IsValid sh.source × (sh.upstream_over ≡ true) × (to_go w (left sh.source) ≤ k)

  drain-Nearer :
      (sh : Shared S B) (l : List A)
      → IsValid sh.source
      → sh.upstream_over ≡ true
      → left sh.source ≡ l
      → Nearer (length l * 4 + 1) (worker_step src transform prompt sh draining)
  unfolding worker_step
  drain-Nearer sh [] v o e =
      let rest : left (src.try_read sh.source).1 ≡ [] = laws.others sh.source v ∙ ap tail e in
      (laws.valid sh.source v, o, rw (laws.first sh.source v, e, rest) (omega arith))
  drain-Nearer sh (a ∷ l) v o e =
      let rest : left (src.try_read sh.source).1 ≡ l = laws.others sh.source v ∙ ap tail e in
      (laws.valid sh.source v, o, rw (laws.first sh.source v, e, rest) (omega arith))

  check-Nearer :
      (sh : Shared S B) (l : List A)
      → IsValid sh.source
      → sh.upstream_over ≡ true
      → left sh.source ≡ l
      → Nearer (to_go checking l - 1) (worker_step src transform prompt sh checking)
  unfolding worker_step
  check-Nearer sh [] v o e = (v, o, rw (laws.more sh.source v, e) (omega arith))
  check-Nearer sh (a ∷ l) v o e = (v, o, rw (laws.more sh.source v, e) (omega arith))

  step-Nearer :
      (sh : Shared S B) (w : Worker A)
      → IsValid sh.source
      → sh.upstream_over ≡ true
      → Nearer (to_go w (left sh.source) - 1) (worker_step src transform prompt sh w)
  unfolding worker_step
  step-Nearer sh receiving v o =
      subst (Nearer (length (left sh.source) * 4 + 3 - 1)) (sym (whenever _ _ o))
        (v, o, omega arith)
  step-Nearer sh draining v o =
      let (v', o', le) = drain-Nearer sh (left sh.source) v o refl in (v', o', omega (arith, le))
  step-Nearer sh checking v o = check-Nearer sh (left sh.source) v o refl
  step-Nearer sh (handling late a) v o = (v, o, passed_on-to_go late (transform a) (left sh.source))
    where
      passed_on-to_go :
          (b : Bool) (r : Option B) (l : List A)
          → to_go (passed_on b r) l ≤ to_go (handling b a) l - 1
      passed_on-to_go true none l = omega arith
      passed_on-to_go false none l = omega arith
      passed_on-to_go true (some x) l = omega arith
      passed_on-to_go false (some x) l = omega arith
  step-Nearer sh (sending false) v o = (v, o, omega arith)
  step-Nearer sh (sending true) v o = (v, o, omega arith)
  step-Nearer sh finished v o = (v, o, omega arith)

  work-Nearer :
      (k : ℕ) (sh : Shared S B) (w : Worker A)
      → Nearer k (sh, w)
      → Nearer 0 (work src transform k sh w)
  work-Nearer zero sh w n = n
  work-Nearer (suc k) sh w (v, o, le) =
      let (sh', w') = worker_step src transform prompt sh w in
      let (v', o', le') = step-Nearer sh w v o in
      work-Nearer k sh' w' (v', o', omega (arith, le, le'))

  at_end : (w : Worker A) (l : List A) → to_go w l ≤ 0 → w ≡ finished
  at_end receiving l h = absurd (omega arith)
  at_end draining l h = absurd (omega arith)
  at_end checking [] h = absurd (omega arith)
  at_end checking (a ∷ l) h = absurd (omega arith)
  at_end (handling false a) l h = absurd (omega arith)
  at_end (handling true a) l h = absurd (omega arith)
  at_end (sending false) l h = absurd (omega arith)
  at_end (sending true) l h = absurd (omega arith)
  at_end finished l h = refl

  to_go_most : (w : Worker A) (l : List A) → to_go w l ≤ length l * 4 + 5
  to_go_most receiving l = omega arith
  to_go_most draining l = omega arith
  to_go_most checking [] = omega arith
  to_go_most checking (a ∷ l) = omega arith
  to_go_most (handling false a) l = omega arith
  to_go_most (handling true a) l = omega arith
  to_go_most (sending false) l = omega arith
  to_go_most (sending true) l = omega arith
  to_go_most finished l = omega arith

  -- For such a queue, a worker of Map that runs on its own once the stages before are done, that
  -- notices it, and whose calls of Enqueue on the next queue return, is at its end after at most
  -- four steps for each item that is left and five more, wherever it was.
  pub work-finished :
      (sh : Shared S B) (w : Worker A)
      → IsValid sh.source
      → sh.upstream_over ≡ true
      → (work src transform (length (left sh.source) * 4 + 5) sh w).1 ≡ finished
  work-finished sh w v o =
      let k = length (left sh.source) * 4 + 5 in
      let (v', o', le) = work-Nearer k sh w (v, o, to_go_most w (left sh.source)) in
      at_end (work src transform k sh w).1 (left (work src transform k sh w).0.source) le
