-- ===== src/WorkerPool/Results.antt =====
-- What a worker of examples/patterns/worker_pool.go does with the jobs of a queue.
use mpmc_queue.Prelude.{
  ℕ, zero, suc, ◌+◌, ◌≤◌, inl, inr, lt-or-le, ◌*◌, ◌≡◌, refl, sym, ap, subst, ◌∙◌, false, none,
  some, List, [], ◌∷◌, ◌++◌, map, append-nil, append_assoc, head?, tail, length, arith,
}
use mpmc_queue.Pipeline.Upstream.{Source, SourceLaws, is_nonempty}
use mpmc_queue.WorkerPool.{
  Loop, fetching, asking, working, stopped, after_fetch, loop_step, loop_steps,
}

module _ {S A B : Type 0} (src : Source S A) (IsValid : S → Type 0) (left : S → List A)
    (laws : SourceLaws src IsValid left) (process : A → B) where
  -- The loop has stopped, with results for all the jobs `l` behind those that it had.
  abbrev Done : List B → List A → (S × List B) × Loop A → Type 0
  Done out l ((s, sent), where_) =
      (where_ ≡ stopped) × (sent ≡ out ++ map process l) × (left s ≡ [])

  -- The steps that it takes: two for each job, and two to find that there are none.
  abbrev steps : List A → ℕ
  steps [] = 2
  steps (a ∷ l) = suc (suc (steps l))

  fetch :
      (s : S) (out : List B)
      → loop_step src process false (s, out) fetching
        ≡ (((src.try_read s).1, out), after_fetch (src.try_read s).0)
  unfolding loop_step
  fetch s out = refl

  ask :
      (s : S) (out : List B)
      → src.has_more_data s ≡ false
      → loop_step src process false (s, out) asking ≡ ((s, out), stopped)
  unfolding loop_step
  ask s out e = rw e refl

  do_job :
      (s : S) (out : List B) (a : A)
      → loop_step src process false (s, out) (working a) ≡ ((s, out ++ process a ∷ []), fetching)
  unfolding loop_step
  do_job s out a = refl

  loop_steps-Done :
      (l : List A) (s : S) (out : List B)
      → IsValid s
      → left s ≡ l
      → Done out l (loop_steps src process (steps l) ((s, out), fetching))
  loop_steps-Done [] s out v e =
      let s' = (src.try_read s).1 in
      let rest : left s' ≡ [] = laws.others s v ∙ ap tail e in
      let nothing : (src.try_read s).0 ≡ none = laws.first s v ∙ ap head? e in
      let more : src.has_more_data s' ≡ false =
        laws.more s' (laws.valid s v) ∙ ap is_nonempty rest in
      let first : loop_step src process false (s, out) fetching ≡ ((s', out), asking) =
        fetch s out ∙ ap (λ o. ((s', out), after_fetch o)) nothing in
      subst (λ r. Done out [] (loop_steps src process 1 r)) (sym first)
        (subst (λ r. Done out [] r) (sym (ask s' out more)) (refl, sym (append-nil out), rest))
  loop_steps-Done (a ∷ l) s out v e =
      let s' = (src.try_read s).1 in
      let rest : left s' ≡ l = laws.others s v ∙ ap tail e in
      let job : (src.try_read s).0 ≡ some a = laws.first s v ∙ ap head? e in
      let first : loop_step src process false (s, out) fetching ≡ ((s', out), working a) =
        fetch s out ∙ ap (λ o. ((s', out), after_fetch o)) job in
      let (over, sent, none_left) =
        loop_steps-Done l s' (out ++ process a ∷ []) (laws.valid s v) rest in
      subst (λ r. Done out (a ∷ l) (loop_steps src process (suc (steps l)) r)) (sym first)
        (subst (λ r. Done out (a ∷ l) (loop_steps src process (steps l) r)) (sym (do_job s' out a))
          (over, sent ∙ append_assoc out (process a ∷ []) (map process l), none_left))

  steps_lem : (l : List A) → steps l ≡ length l * 2 + 2
  steps_lem [] = refl
  steps_lem (a ∷ l) = omega (arith, steps_lem l)

  -- A worker of the worker pool that is not cancelled and runs on its own, over a queue whose
  -- reads take the first item that is left to its consumer and which tells rightly whether there
  -- are some, stops after two steps for each of them and two more, with a result for each, in
  -- order.
  pub loop_steps-DoesAll :
      (s : S)
      → IsValid s
      → let ((s', sent), where_) =
          loop_steps src process (length (left s) * 2 + 2) ((s, []), fetching) in
        (where_ ≡ stopped) × (sent ≡ map process (left s)) × (left s' ≡ [])
  loop_steps-DoesAll s v =
      subst (λ k. Done [] (left s) (loop_steps src process k ((s, []), fetching)))
        (steps_lem (left s)) (loop_steps-Done (left s) s [] v refl)

  stopped_stays :
      (r : (S × List B) × Loop A) → r.1 ≡ stopped → loop_step src process false r.0 r.1 ≡ r
  unfolding loop_step
  stopped_stays ((s, out), fetching) e = absurd (ground arith)
  stopped_stays ((s, out), asking) e = absurd (ground arith)
  stopped_stays ((s, out), working a) e = absurd (ground arith)
  stopped_stays ((s, out), stopped) e = refl

  loop_steps-last :
      (k : ℕ) (r : (S × List B) × Loop A)
      → let r' = loop_steps src process k r in
        loop_steps src process (suc k) r ≡ loop_step src process false r'.0 r'.1
  loop_steps-last zero r = refl
  loop_steps-last (suc k) r = loop_steps-last k (loop_step src process false r.0 r.1)

  -- So it is after any more steps.
  pub loop_steps-Enough :
      (s : S) (k : ℕ)
      → IsValid s
      → length (left s) * 2 + 2 ≤ k
      → Done [] (left s) (loop_steps src process k ((s, []), fetching))
  loop_steps-Enough s zero v le = absurd (omega (arith, le))
  loop_steps-Enough s (suc k) v le = elim (lt-or-le k (length (left s) * 2 + 2)) [
    | inl short ↦
        let exact : length (left s) * 2 + 2 ≡ suc k = omega (arith, le, short) in
        subst (λ n. Done [] (left s) (loop_steps src process n ((s, []), fetching))) exact
          (loop_steps-DoesAll s v)
    | inr long ↦
        let r = loop_steps src process k ((s, []), fetching) in
        let done = loop_steps-Enough s k v long in
        subst (Done [] (left s))
          (sym (loop_steps-last k ((s, []), fetching) ∙ stopped_stays r done.0)) done
  ]
