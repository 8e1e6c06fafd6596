-- ===== src/Schedule/Stored.antt =====
-- Where what calls of `TryRead` return was copied (queue/consumer.go, queue/consumer_group.go), however they
-- interleave.
use mpmc_queue.Prelude.{
  ◌≤◌, ◌<◌, ℕ, ◌≡◌, ◌⊎◌, refl, subst, sym, inl, inr, Bool, Option, none, some, List, [], ◌∷◌,
  Bool-cases, arith, ◌&&◌, ◌==◌, update,
}
use mpmc_queue.ChunkedList.{ChunkedList, ChunkRemovalInfo, get_first_element, instant}
use mpmc_queue.Cursor.{Cursor}
use mpmc_queue.Schedule.Cells.{enqueue-Cell, remove_expired_data-Cell}
use mpmc_queue.Schedule.{
  Steps, World, Action, Delivery, step_call, post, remove, move, shut, act, logged, is_cleaning,
  Reach, begin, next,
}

-- The item is at its position: in the cell with its index, which is filled and has not expired.
abbrev pub IsStored : ChunkedList → Delivery → Type 0
IsStored cl d =
    let c = cl.chunks d.element in
    (c.head ≤ d.index) × (d.index < c.size) × (c.items d.index ≡ d.item)

module _ {P : Type 0} where
  -- Where an item that is in its cell after an action comes from.
  abbrev CameBy : Action → World P → Delivery → Type 0
  CameBy (post x) w d = IsStored w.items d ⊎ (d.item ≡ x)
  CameBy _ w d = IsStored w.items d

  abbrev IfCame : Action → World P → Option (World P) → Type 0
  IfCame a w none = Unit {0}
  IfCame a w (some w') = (d : Delivery) → IsStored w'.items d → CameBy a w d

  module _ (s : Steps P) where
    act-Came : (a : Action) (w : World P) → IfCame a w (act s a w)
    unfolding act
    act-Came (step_call k) w = elim (Bool-cases (is_cleaning w && s.needs_lock (w.points k))) [
      | inl held ↦ rw held tt
      | inr free ↦ rw free (λ d h. h)
    ]
    act-Came (post x) w = elim (Bool-cases (is_cleaning w)) [
      | inl held ↦ rw held tt
      | inr free ↦ rw free (λ d h. enqueue-Cell w.items x d.element d.index d.item h)
    ]
    act-Came (remove now ttl) w = elim (Bool-cases (is_cleaning w)) [
      | inl held ↦ rw held tt
      | inr free ↦
          rw free
            (λ d h. remove_expired_data-Cell (instant now) ttl w.items d.element d.index d.item h)
    ]
    act-Came move w = go w.cleanup
      where
        go :
            (c : Option (ℕ × List ChunkRemovalInfo))
            → IfCame move w (elim c [
              | none ↦ none
              | some (removed, infos) ↦ some (record w {
                cursor =
                    s.moved w.closed w.items removed (get_first_element w.items) infos w.cursor;
                cleanup = none;
              })
            ])
        go none = tt
        go (some (removed, infos)) = λ d h. h
    act-Came shut w = λ d h. h

module _ {P : Type 0} {s : Steps P} where
  -- It was so in some world of the run.
  abbrev pub WasStored : {start w : World P} → Reach s start w → Delivery → Type 0
  WasStored {start} begin d = IsStored start.items d
  WasStored (next a w w' r e) d = WasStored r d ⊎ IsStored w'.items d

  -- It was there at the start of the run, or a producer posted it since.
  abbrev pub IsKnown : {start w : World P} → Reach s start w → Delivery → Type 0
  IsKnown {start} begin d = IsStored start.items d
  IsKnown (next (post x) w w' r e) d = IsKnown r d ⊎ (d.item ≡ x)
  IsKnown (next _ w w' r e) d = IsKnown r d

  abbrev pub AllStored : {start w : World P} → Reach s start w → List Delivery → Type 0
  AllStored r [] = Unit {0}
  AllStored r (d ∷ ds) = WasStored r d × IsKnown r d × AllStored r ds

  IsKnown-next :
      (start w w' : World P) (r : Reach s start w) (a : Action) (e : act s a w ≡ some w')
      (d : Delivery)
      → IsKnown r d
      → IsKnown (next a w w' r e) d
  IsKnown-next start w w' r (step_call k) e d h = h
  IsKnown-next start w w' r (post x) e d h = inl h
  IsKnown-next start w w' r (remove now ttl) e d h = h
  IsKnown-next start w w' r move e d h = h
  IsKnown-next start w w' r shut e d h = h

  IsKnown-now :
      (start w : World P) (r : Reach s start w) (d : Delivery) → IsStored w.items d → IsKnown r d
  IsKnown-now start _ begin d h = h
  IsKnown-now start _ (next (step_call k) w w' r e) d h =
      IsKnown-now start w r d (subst (IfCame (step_call k) w) e (act-Came s (step_call k) w) d h)
  IsKnown-now start _ (next (post x) w w' r e) d h =
      elim (subst (IfCame (post x) w) e (act-Came s (post x) w) d h) [
        | inl old ↦ inl (IsKnown-now start w r d old)
        | inr new ↦ inr new
      ]
  IsKnown-now start _ (next (remove now ttl) w w' r e) d h =
      IsKnown-now start w r d
        (subst (IfCame (remove now ttl) w) e (act-Came s (remove now ttl) w) d h)
  IsKnown-now start _ (next move w w' r e) d h =
      IsKnown-now start w r d (subst (IfCame move w) e (act-Came s move w) d h)
  IsKnown-now start _ (next shut w w' r e) d h =
      IsKnown-now start w r d (subst (IfCame shut w) e (act-Came s shut w) d h)

  stored-now :
      (start w : World P) (r : Reach s start w) (d : Delivery) → IsStored w.items d → WasStored r d
  stored-now start _ begin d h = h
  stored-now start _ (next a w w' r e) d h = inr h

  AllStored-next :
      (start w w' : World P) (r : Reach s start w) (a : Action) (e : act s a w ≡ some w')
      (ds : List Delivery)
      → AllStored r ds
      → AllStored (next a w w' r e) ds
  AllStored-next start w w' r a e [] h = tt
  AllStored-next start w w' r a e (d ∷ ds) (h, known, hs) =
      (inl h, IsKnown-next start w w' r a e d known, AllStored-next start w w' r a e ds hs)

module _ {P : Type 0} (s : Steps P) (Carries : P → Delivery → Type 0) where
  -- A call carries an item from the step that copies it, and returns only what it carries.
  pub record Handling : Type 0 where
    pub given :
        (closed : Bool) (cl : ChunkedList) (cur : Cursor) (p : P) (d : Delivery)
        → ((s.step closed cl cur p).2 ≡ some d)
        → Carries p d
    pub taken :
        (closed : Bool) (cl : ChunkedList) (cur : Cursor) (p : P) (d : Delivery)
        → Carries (s.step closed cl cur p).0 d
        → Carries p d ⊎ IsStored cl d

  -- What the calls carry after an action, and what they have returned.
  abbrev Changed : World P → World P → Type 0
  Changed w w' =
      ((k : ℕ) (d : Delivery)
        → Carries (w'.points k) d
        → Carries (w.points k) d ⊎ IsStored w.items d)
      × ((w'.delivered ≡ w.delivered)
          ⊎ ((k : ℕ) × (d : Delivery) × Carries (w.points k) d × (w'.delivered ≡ d ∷ w.delivered)))

  abbrev IfChanged : World P → Option (World P) → Type 0
  IfChanged w none = Unit {0}
  IfChanged w (some w') = Changed w w'

  abbrev step_of : World P → ℕ → P × Cursor × Option Delivery
  step_of w k = s.step w.closed w.items w.cursor (w.points k)

  module _ (h : Handling) where
    step-Changed : (w : World P) (k : ℕ) → IfChanged w (act s (step_call k) w)
    unfolding act
    step-Changed w k = elim (Bool-cases (is_cleaning w && s.needs_lock (w.points k))) [
      | inl held ↦ rw held tt
      | inr free ↦
          rw free
            (carried, returned (step_of w k).2 (h.given w.closed w.items w.cursor (w.points k)))
    ]
      where
        carried :
            (j : ℕ) (d : Delivery)
            → Carries (update w.points k (step_of w k).0 j) d
            → Carries (w.points j) d ⊎ IsStored w.items d
        carried j d = elim (Bool-cases (j == k)) [
          | inl same ↦
              let this : k ≡ j = ground arith in
              rw same (λ c.
                subst (λ i. Carries (w.points i) d ⊎ IsStored w.items d) this
                  (h.taken w.closed w.items w.cursor (w.points k) d c))
          | inr other ↦ rw other (λ c. inl c)
        ]

        returned :
            (out : Option Delivery)
            → ((d : Delivery) → (out ≡ some d) → Carries (w.points k) d)
            → (logged out w.delivered ≡ w.delivered)
              ⊎ ((j : ℕ) × (d : Delivery) × Carries (w.points j) d
                  × (logged out w.delivered ≡ d ∷ w.delivered))
        returned none c = inl refl
        returned (some d) c = inr (k, d, c d refl, refl)

    act-Changed : (a : Action) (w : World P) → IfChanged w (act s a w)
    unfolding act
    act-Changed (step_call k) w = step-Changed w k
    act-Changed (post x) w = elim (Bool-cases (is_cleaning w)) [
      | inl held ↦ rw held tt
      | inr free ↦ rw free (λ k d c. inl c, inl refl)
    ]
    act-Changed (remove now ttl) w = elim (Bool-cases (is_cleaning w)) [
      | inl held ↦ rw held tt
      | inr free ↦ rw free (λ k d c. inl c, inl refl)
    ]
    act-Changed move w = go w.cleanup
      where
        go :
            (c : Option (ℕ × List ChunkRemovalInfo))
            → IfChanged w (elim c [
              | none ↦ none
              | some (removed, infos) ↦ some (record w {
                cursor =
                    s.moved w.closed w.items removed (get_first_element w.items) infos w.cursor;
                cleanup = none;
              })
            ])
        go none = tt
        go (some (removed, infos)) = (λ k d c. inl c, inl refl)
    act-Changed shut w = (λ k d c. inl c, inl refl)

    module _ (start : World P) (empty : (k : ℕ) (d : Delivery) → ¬ Carries (start.points k) d)
        (none_yet : start.delivered ≡ []) where
      pub Reach-Stored :
          (w : World P) (r : Reach s start w)
          → ((k : ℕ) (d : Delivery) → Carries (w.points k) d → WasStored r d × IsKnown r d)
            × AllStored r w.delivered
      Reach-Stored _ begin = (λ k d c. absurd (empty k d c), rw none_yet tt)
      Reach-Stored _ (next a w w' r e) =
          let (carried, all) = Reach-Stored w r in
          let (now, back) = subst (IfChanged w) e (act-Changed a w) in
          let before : (k : ℕ) (d : Delivery)
              → Carries (w.points k) d ⊎ IsStored w.items d
              → WasStored r d × IsKnown r d =
            λ k d c. elim c [
              | inl had ↦ carried k d had
              | inr stored ↦ (stored-now start w r d stored, IsKnown-now start w r d stored)
            ] in
          (
            λ k d c.
                let (was, known) = before k d (now k d c) in
                (inl was, IsKnown-next start w w' r a e d known),
            elim back [
              | inl same ↦
                  subst (AllStored (next a w w' r e)) (sym same)
                    (AllStored-next start w w' r a e w.delivered all)
              | inr (k, d, c, longer) ↦
                  let (was, known) = carried k d c in
                  subst (AllStored (next a w w' r e)) (sym longer)
                    (AllStored-next start w w' r a e (d ∷ w.delivered) (was, known, all))
            ],
          )
