-- ===== src/Pipeline/Steps.antt =====
-- A step of one worker of `Map` (examples/patterns/data_pipeline.go): what it takes and forwards.
use mathlib.Core.List.{filter_map, filter_map-cons-none, filter_map-cons-some}
use mpmc_queue.Prelude.{
  ◌≡◌, refl, sym, ap, ◌∙◌, Bool, true, false, ◌&&◌, ◌||◌, Option, none, some, List, [], ◌∷◌, ◌++◌,
  append-nil, tail, arith, Bool-cases, inl, inr,
}
use mpmc_queue.Pipeline.Upstream.{Source, SourceLaws, is_nonempty}
use mpmc_queue.Pipeline.Workers.{
  Worker, receiving, draining, checking, handling, sending, finished, Shared, Moment, received,
  drained, back, passed_on, forward, worker_step,
}

-- The item that a worker has read and not forwarded yet.
abbrev pub holds : {A : Type 0} → Worker A → List A
holds receiving = []
holds draining = []
holds checking = []
holds (handling late a) = a ∷ []
holds (sending late) = []
holds finished = []

-- The stages before are done, or the queue is closed: nothing more comes in.
abbrev pub ends : {S B : Type 0} → Shared S B → Bool
ends sh = sh.upstream_over || sh.stopped

both→right : (a b : Bool) → (a && b) ≡ true → b ≡ true
both→right a b e = ground (arith, e)

is_empty : {A : Type 0} (l : List A) → is_nonempty l ≡ false → l ≡ []
is_empty [] e = refl
is_empty (x ∷ l) e = cc e

module _ {S A B : Type 0} (src : Source S A) (IsValid : S → Type 0) (left : S → List A)
    (laws : SourceLaws src IsValid left) (transform : A → Option B) where
  -- In the second loop nothing more comes in; at the end nothing is left.
  abbrev pub IsInPhase : Shared S B → Worker A → Type 0
  IsInPhase sh receiving = Unit
  IsInPhase sh draining = ends sh ≡ true
  IsInPhase sh checking = ends sh ≡ true
  IsInPhase sh (handling late a) = late ≡ true → ends sh ≡ true
  IsInPhase sh (sending late) = late ≡ true → ends sh ≡ true
  IsInPhase sh finished = (ends sh ≡ true) × (left sh.source ≡ [])

  -- What a step takes from the upstream queue and what it forwards.
  pub record Moves (sh sh' : Shared S B) (taken done : List A) : Type 0 where
    pub valid : IsValid sh'.source
    pub from_left : left sh.source ≡ taken ++ left sh'.source
    pub to_sent : sh'.sent ≡ sh.sent ++ filter_map transform done
    pub same_over : ends sh' ≡ ends sh

  -- What a step of worker `w` makes of it.
  abbrev pub Stepped : Shared S B → Worker A → Shared S B × Worker A → Type 0
  Stepped sh w (sh', w') =
      (taken : List A) × (done : List A) × Moves sh sh' taken done
      × (holds w' ++ done ≡ holds w ++ taken)
      × IsInPhase sh' w'

  abbrev items : Option A → List A
  items none = []
  items (some a) = a ∷ []

  read-left :
      (s : S) (l : List A)
      → IsValid s
      → left s ≡ l
      → left s ≡ items (src.try_read s).0 ++ left (src.try_read s).1
  read-left s [] v e = rw (laws.first s v, e) (sym (laws.others s v ∙ ap tail e))
  read-left s (a ∷ l) v e =
      rw (laws.first s v, e) (ap (λ t. a ∷ t) (sym (laws.others s v ∙ ap tail e)))

  pub rests-Moves : (sh : Shared S B) → IsValid sh.source → Moves sh sh [] []
  unfolding filter_map
  rests-Moves sh v = record {
    valid = v;
    from_left = refl;
    to_sent = sym (append-nil sh.sent);
    same_over = refl;
  }

  -- A worker that stays as it is, but for where it goes on.
  rests-Stepped :
      (sh : Shared S B) (w w' : Worker A)
      → IsValid sh.source
      → holds w' ≡ holds w
      → IsInPhase sh w'
      → Stepped sh w (sh, w')
  rests-Stepped sh w w' v h p = ([], [], rests-Moves sh v, ap (λ l. l ++ []) h, p)

  read-Stepped :
      (sh : Shared S B) (w : Worker A) (next : Option A → Worker A)
      → IsValid sh.source
      → holds w ≡ []
      → ((o : Option A) → holds (next o) ≡ items o)
      → ((sh' : Shared S B) (o : Option A) → ends sh' ≡ ends sh → IsInPhase sh' (next o))
      → let (o, s) = src.try_read sh.source in Stepped sh w (record sh { source = s }, next o)
  unfolding filter_map
  read-Stepped sh w next v e h p =
      let (o, s) = src.try_read sh.source in
      (
        items o,
        [],
        record {
          valid = laws.valid sh.source v;
          from_left = read-left sh.source (left sh.source) v refl;
          to_sent = sym (append-nil sh.sent);
          same_over = refl;
        },
        append-nil (holds (next o)) ∙ h o ∙ ap (λ l. l ++ items o) (sym e),
        p (record sh { source = s }) o refl,
      )

  forward_lem :
      (a : A) (sent : List B) → forward (transform a) sent ≡ sent ++ filter_map transform (a ∷ [])
  unfolding filter_map
  forward_lem a sent = by_result (transform a) refl
    where
      by_result :
          (o : Option B) → transform a ≡ o → forward o sent ≡ sent ++ filter_map transform (a ∷ [])
      by_result none e =
          sym (ap (λ l. sent ++ l) (filter_map-cons-none transform a [] e) ∙ append-nil sent)
      by_result (some b) e = sym (ap (λ l. sent ++ l) (filter_map-cons-some transform a [] e))

  back-IsInPhase :
      (sh : Shared S B) (late : Bool) → (late ≡ true → ends sh ≡ true) → IsInPhase sh (back late)
  back-IsInPhase sh true p = p refl
  back-IsInPhase sh false p = tt

  back-holds : (late : Bool) → holds {A = A} (back late) ≡ []
  back-holds true = refl
  back-holds false = refl

  passed_on-IsInPhase :
      (sh : Shared S B) (late : Bool) (o : Option B)
      → (late ≡ true → ends sh ≡ true)
      → IsInPhase sh (passed_on late o)
  passed_on-IsInPhase sh late none p = back-IsInPhase sh late p
  passed_on-IsInPhase sh late (some b) p = p

  passed_on-holds : (late : Bool) (o : Option B) → holds {A = A} (passed_on late o) ≡ []
  passed_on-holds late none = back-holds late
  passed_on-holds late (some b) = refl

  handle-Stepped :
      (sh : Shared S B) (late : Bool) (a : A)
      → IsValid sh.source
      → (late ≡ true → ends sh ≡ true)
      → Stepped sh
          (handling late a)
          (record sh { sent = forward (transform a) sh.sent }, passed_on late (transform a))
  handle-Stepped sh late a v p = (
    [],
    a ∷ [],
    record { valid = v; from_left = refl; to_sent = forward_lem a sh.sent; same_over = refl },
    ap (λ l. l ++ a ∷ []) (passed_on-holds late (transform a)),
    passed_on-IsInPhase (record sh { sent = forward (transform a) sh.sent }) late (transform a) p,
  )

  received-holds : (stop : Bool) (o : Option A) → holds (received stop o) ≡ items o
  received-holds true none = refl
  received-holds false none = refl
  received-holds stop (some a) = refl

  drained-holds : (o : Option A) → holds (drained o) ≡ items o
  drained-holds none = refl
  drained-holds (some a) = refl

  received-IsInPhase :
      (sh : Shared S B) (stop : Bool) (o : Option A)
      → (stop ≡ true → ends sh ≡ true)
      → IsInPhase sh (received stop o)
  received-IsInPhase sh true none p = p refl
  received-IsInPhase sh false none p = tt
  received-IsInPhase sh stop (some a) p = λ h. absurd (ground arith)

  drained-IsInPhase : (sh : Shared S B) (o : Option A) → ends sh ≡ true → IsInPhase sh (drained o)
  drained-IsInPhase sh none e = e
  drained-IsInPhase sh (some a) e = λ h. e

  pub worker_step-Stepped :
      (m : Moment) (sh : Shared S B) (w : Worker A)
      → IsValid sh.source
      → IsInPhase sh w
      → Stepped sh w (worker_step src transform m sh w)
  unfolding worker_step
  worker_step-Stepped m sh receiving v p = elim (Bool-cases (m.notices && sh.upstream_over)) [
    | inl e ↦
        let over : sh.upstream_over ≡ true = both→right m.notices _ e in
        rw e (rests-Stepped sh receiving draining v refl (ground (arith, over)))
    | inr e ↦
        let stop = m.sees_stop && sh.stopped in
        let shut : stop ≡ true → ends sh ≡ true =
          λ h. let k : sh.stopped ≡ true = both→right m.sees_stop _ h in ground (arith, k) in
        rw e (
          read-Stepped sh receiving (received stop) v refl (received-holds stop)
            (λ sh' o same. received-IsInPhase sh' stop o (λ h. same ∙ shut h)))
  ]
  worker_step-Stepped m sh draining v p =
      read-Stepped sh draining drained v refl drained-holds
        (λ sh' o same. drained-IsInPhase sh' o (same ∙ p))
  worker_step-Stepped m sh checking v p = elim (Bool-cases (src.has_more_data sh.source)) [
    | inl e ↦ rw e (rests-Stepped sh checking draining v refl p)
    | inr e ↦ rw e (
        rests-Stepped sh checking finished v refl (p, is_empty _ (sym (laws.more sh.source v) ∙ e)))
  ]
  worker_step-Stepped m sh (handling late a) v p = handle-Stepped sh late a v p
  worker_step-Stepped m sh (sending late) v p = elim (Bool-cases m.returns) [
    | inl e ↦
        rw e (
          rests-Stepped sh (sending late) (back late) v (back-holds late)
            (back-IsInPhase sh late p))
    | inr e ↦ rw e (rests-Stepped sh (sending late) (sending late) v refl p)
  ]
  worker_step-Stepped m sh finished v p = rests-Stepped sh finished finished v refl p
