-- ===== src/Memory/Walk.antt =====
-- The walk by reflection of queue/memory.go (estimateValueSize) yields an int64 that is not
-- negative, since `safeAdd` saturates.
use mpmc_queue.Prelude.{
  ℕ, zero, suc, ◌*◌, ◌≤◌, Bool, true, false, ◌&&◌, not, Option, none, some, List, [], ◌∷◌, ltb,
  if◌then◌else◌, ◌≡◌, refl, arith,
}
use mpmc_queue.Prelude.Int.{ℤ, pos, negsuc, pos_part, leb_ℤ, ◌≤ℤ◌, ◌-ℤ◌}
use mpmc_queue.Prelude.Int64.{max_int64, wrap64, sub64-pos, add64-pos}
use mpmc_queue.Payload.{
  Value, invalid, boolean, number, text, array, slice, map_value, struct, pointer, interface, other,
  Values, nil, cons, Graph,
}
use mpmc_queue.Memory.Estimate.{
  Estimate, safe_add, cached, sum_values, estimate_kind, estimate_value_size, is_invalid,
  is_aggregate, type_of, visited_size, visit, address, answer,
}

-- An int64 that is not negative.
abbrev pub InRange : ℤ → Type 0
InRange a = (pos 0 ≤ℤ a) × (a ≤ℤ pos max_int64)

unfoldable mutual
  -- The sizes and lengths in a value are ones that Go can have.
  pub IsValue : Value → Type 0
  IsValue invalid = Unit
  IsValue (boolean t) = Unit
  IsValue (number t) = t.size ≤ max_int64
  IsValue (text t n) = n ≤ max_int64
  IsValue (array t vs) = AreValues vs
  IsValue (slice t a n k) = t.size ≤ max_int64
  IsValue (map_value t a) = Unit
  IsValue (struct t vs) = AreValues vs
  IsValue (pointer t a) = t.size ≤ max_int64
  IsValue (interface t v) = (t.size ≤ max_int64) × IsValue v
  IsValue (other t) = t.size ≤ max_int64

  pub AreValues : Values → Type 0
  AreValues nil = Unit
  AreValues (cons v vs) = IsValue v × AreValues vs

pub record IsGraph (g : Graph) : Type 0 where
  pub pointees : (a : ℕ) → IsValue (g.pointee a)
  pub all_elements : (a : ℕ) → AreValues (g.elements a)

-- No size in the cache is above the int64.
abbrev pub IsCache : List (ℕ × ℤ) → Type 0
IsCache [] = Unit
IsCache ((t, size) ∷ rest) = (size ≤ℤ pos max_int64) × IsCache rest

abbrev pub IsEstimate : Estimate → Type 0
IsEstimate e = InRange e.size × IsCache e.cache

wrap64-below : (a : ℤ) → wrap64 a ≤ℤ pos max_int64
unfolding wrap64
wrap64-below (pos n) = ground arith
wrap64-below (negsuc n) = ground arith

-- `safeAdd` neither leaves the range nor loses what it adds to.
pub safe_add-InRange :
    (a b : ℤ) → InRange a → b ≤ℤ pos max_int64 → InRange (safe_add a b) × (a ≤ℤ safe_add a b)
unfolding safe_add ◌-ℤ◌
safe_add-InRange (pos x) (negsuc y) h k = ground arith
safe_add-InRange (negsuc x) b h k = ground arith
safe_add-InRange (pos x) (pos y) h k = ground (arith, sub64-pos max_int64 y, add64-pos x y)

cached-below :
    (t : ℕ) (cache : List (ℕ × ℤ)) (size : ℤ)
    → IsCache cache
    → cached t cache ≡ some size
    → size ≤ℤ pos max_int64
unfolding cached
cached-below t [] size h e = ground arith
cached-below t ((u, s) ∷ rest) size h e = ground (arith, cached-below t rest size (h.1))

-- What the recursive call promises.
abbrev pub IsEstimator : (Option (List ℕ) → List (ℕ × ℤ) → Value → Estimate) → Type 0
IsEstimator estimate =
    (seen : Option (List ℕ)) (cache : List (ℕ × ℤ)) (v : Value)
    → IsCache cache
    → IsValue v
    → IsEstimate (estimate seen cache v)

sum_values-IsEstimate :
    (estimate : Option (List ℕ) → List (ℕ × ℤ) → Value → Estimate)
    → IsEstimator estimate
    → (vs : Values) (acc : Estimate) → AreValues vs
    → IsEstimate acc
    → IsEstimate (sum_values estimate vs acc)
unfolding sum_values IsValue AreValues
sum_values-IsEstimate estimate good nil acc h k = k
sum_values-IsEstimate estimate good (cons v vs) acc h k =
    let e = good acc.visited acc.cache v (k.1) (h.0) in
    let s = safe_add-InRange acc.size (estimate acc.visited acc.cache v).size (k.0) (e.0.1) in
    sum_values-IsEstimate estimate good vs _ (h.1) (s.0, e.1)

-- A size, with the cache as it was.
pub in_range : (n : ℕ) → n ≤ max_int64 → InRange (pos n)
in_range n h = (omega arith, omega arith)

if_IsEstimate :
    (b : Bool) (e e' : Estimate) → IsEstimate e → IsEstimate e' → IsEstimate (if b then e else e')
if_IsEstimate true e e' h k = h
if_IsEstimate false e e' h k = k

estimate_kind-IsEstimate :
    (estimate : Bool → Option (List ℕ) → List (ℕ × ℤ) → Value → Estimate)
    → ((addressable : Bool) → IsEstimator (estimate addressable))
    → (g : Graph) → IsGraph g
    → (seen : Option (List ℕ)) (cache : List (ℕ × ℤ)) (v : Value) → IsCache cache
    → IsValue v
    → IsEstimate (estimate_kind estimate g seen cache v)
unfolding estimate_kind IsValue AreValues
estimate_kind-IsEstimate estimate good g gg seen cache invalid c h = (in_range 0 (omega arith), c)
estimate_kind-IsEstimate estimate good g gg seen cache (boolean t) c h =
    (in_range 1 (omega arith), c)
estimate_kind-IsEstimate estimate good g gg seen cache (number t) c h = (in_range t.size h, c)
estimate_kind-IsEstimate estimate good g gg seen cache (text t n) c h = (in_range n h, c)
estimate_kind-IsEstimate estimate good g gg seen cache (array t vs) c h =
    sum_values-IsEstimate (estimate true) (good true) vs _ h (in_range 0 (omega arith), c)
estimate_kind-IsEstimate estimate good g gg seen cache (slice t none n k) c h =
    (in_range t.size h, c)
estimate_kind-IsEstimate estimate good g gg seen cache (slice t (some a) n (some k)) c h =
    let s =
      safe_add-InRange (pos t.size) (wrap64 (pos (n * k))) (in_range t.size h)
        (wrap64-below (pos (n * k))) in
    if_IsEstimate (ltb 0 n) _ _ (s.0, c) (in_range t.size h, c)
estimate_kind-IsEstimate estimate good g gg seen cache (slice t (some a) n none) c h =
    let s =
      sum_values-IsEstimate (estimate true) (good true) (g.elements a)
        (record { size = pos t.size; is_fixed = false; visited = seen; cache = cache })
        (gg.all_elements a) (in_range t.size h, c) in
    if_IsEstimate (ltb 0 n) _ _ s (in_range t.size h, c)
estimate_kind-IsEstimate estimate good g gg seen cache (map_value t a) c h =
    (in_range 1099511627776 (omega arith), c)
estimate_kind-IsEstimate estimate good g gg seen cache (struct t vs) c h =
    sum_values-IsEstimate (estimate true) (good true) vs _ h (in_range 0 (omega arith), c)
estimate_kind-IsEstimate estimate good g gg seen cache (pointer t none) c h = (in_range t.size h, c)
estimate_kind-IsEstimate estimate good g gg seen cache (pointer t (some a)) c h =
    let e = good true seen cache (g.pointee a) c (gg.pointees a) in
    ((safe_add-InRange (pos t.size) _ (in_range t.size h) (e.0.1)).0, e.1)
estimate_kind-IsEstimate estimate good g gg seen cache (interface t v) c h =
    let e = good false seen cache v c (h.1) in
    if_IsEstimate (is_invalid v) _ _ (in_range t.size (h.0), c)
      ((safe_add-InRange (pos t.size) _ (in_range t.size (h.0)) (e.0.1)).0, e.1)
estimate_kind-IsEstimate estimate good g gg seen cache (other t) c h = (in_range t.size h, c)

if_IsEstimate_by :
    (b : Bool) (e e' : Estimate)
    → (b ≡ true → IsEstimate e)
    → IsEstimate e'
    → IsEstimate (if b then e else e')
if_IsEstimate_by true e e' h k = h refl
if_IsEstimate_by false e e' h k = k

visit-IsEstimate :
    (r : Option (Option (List ℕ))) (e : Estimate) (f : Option (List ℕ) → Estimate)
    → IsEstimate e
    → ((seen : Option (List ℕ)) → IsEstimate (f seen))
    → IsEstimate (elim r [ none ↦ e | some seen ↦ f seen ])
visit-IsEstimate none e f h k = h
visit-IsEstimate (some seen) e f h k = k seen

answer-IsEstimate :
    (known : Option ℤ) (seen : Option (List ℕ)) (cache : List (ℕ × ℤ)) (t : ℕ) (walked : Estimate)
    → ((size : ℤ) → known ≡ some size → size ≤ℤ pos max_int64)
    → IsCache cache
    → IsEstimate walked
    → IsEstimate (answer known seen cache t walked)
answer-IsEstimate none seen cache t walked below c h = (h.0, (grind arith, h.1))
answer-IsEstimate (some size) seen cache t walked below c h =
    if_IsEstimate_by (leb_ℤ (pos 0) size) _ _
      (λ (e : leb_ℤ (pos 0) size ≡ true). ((ground arith, below size refl), c)) h

pub estimate_value_size-IsEstimate :
    (max_memory : ℤ) (g : Graph)
    → IsGraph g
    → (fuel : ℕ) (addressable : Bool)
    → IsEstimator (estimate_value_size max_memory g fuel addressable)
unfolding estimate_value_size
estimate_value_size-IsEstimate m g gg zero addressable seen cache v c h =
    (in_range 0 (omega arith), c)
estimate_value_size-IsEstimate m g gg (suc fuel) addressable visited cache v c h =
    if_IsEstimate (ltb 10000 (visited_size visited)) _ _ (in_range 1099511627776 (omega arith), c)
      (if_IsEstimate (is_invalid v) _ _ (in_range 0 (omega arith), c)
        (if_IsEstimate (is_aggregate v && not addressable && ltb (pos_part m) (type_of v).size) _ _
          (in_range 1099511627776 (omega arith), c)
          (visit-IsEstimate (visit visited (address v)) _ _ (in_range 0 (omega arith), c)
            (λ (seen : Option (List ℕ)).
              let call = estimate_value_size m g fuel in
              answer-IsEstimate (cached (type_of v).identity cache) seen cache (type_of v).identity
                (estimate_kind call g seen cache v)
                (λ (size : ℤ). cached-below (type_of v).identity cache size c) c
                (estimate_kind-IsEstimate call (estimate_value_size-IsEstimate m g gg fuel) g gg
                  seen cache v c h)))))
