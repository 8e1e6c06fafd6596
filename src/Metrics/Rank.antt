-- ===== src/Metrics/Rank.antt =====
-- `calculateP95` (queue/metrics.go): the sample at the rank that it is named after.
use mpmc_queue.Prelude.{
  ℕ, zero, suc, ◌*◌, ◌/◌, ◌≤◌, ◌<◌, ◌≡◌, refl, ap, ◌∙◌, inl, inr, Bool, List, [], ◌∷◌, arith,
  Bool-cases, if◌then◌else◌, length,
}
use mpmc_queue.Prelude.Int.{ℤ, ◌≤ℤ◌, ltb_ℤ, leb_ℤ, ltb_ℤ→lt, not_ltb_ℤ→le}
use mpmc_queue.Metrics.{insert, sort, nth, rank_95, calculate_p95}

abbrev pub count_if : (ℤ → Bool) → List ℤ → ℕ
count_if b [] = 0
count_if b (x ∷ xs) = if b x then suc (count_if b xs) else count_if b xs

-- How many samples are less than a number, and how many are not greater.
abbrev pub count_below : ℤ → List ℤ → ℕ
count_below p = count_if (λ d. ltb_ℤ d p)

abbrev pub count_upto : ℤ → List ℤ → ℕ
count_upto p = count_if (λ d. leb_ℤ d p)

AtLeast : ℤ → List ℤ → Type 0
AtLeast x [] = Unit {0}
AtLeast x (y ∷ ys) = (x ≤ℤ y) × AtLeast x ys

IsAscending : List ℤ → Type 0
IsAscending [] = Unit {0}
IsAscending (x ∷ xs) = AtLeast x xs × IsAscending xs

count_if-insert :
    (b : ℤ → Bool) (x : ℤ) (ys : List ℤ) → count_if b (insert x ys) ≡ count_if b (x ∷ ys)
count_if-insert b x [] = refl
count_if-insert b x (y ∷ ys) = ground (arith, count_if-insert b x ys)

count_if-sort : (b : ℤ → Bool) (xs : List ℤ) → count_if b (sort xs) ≡ count_if b xs
count_if-sort b [] = refl
count_if-sort b (x ∷ xs) = count_if-insert b x (sort xs) ∙ ground (arith, count_if-sort b xs)

length-insert : (x : ℤ) (ys : List ℤ) → length (insert x ys) ≡ suc (length ys)
length-insert x [] = refl
length-insert x (y ∷ ys) = ground (arith, length-insert x ys)

length-sort : (xs : List ℤ) → length (sort xs) ≡ length xs
length-sort [] = refl
length-sort (x ∷ xs) = length-insert x (sort xs) ∙ ap suc (length-sort xs)

AtLeast-le : (x y : ℤ) (zs : List ℤ) → x ≤ℤ y → AtLeast y zs → AtLeast x zs
unfolding AtLeast
AtLeast-le x y [] h a = tt
AtLeast-le x y (z ∷ zs) h (b, bs) = (omega arith, AtLeast-le x y zs h bs)

insert-AtLeast : (w x : ℤ) (ys : List ℤ) → w ≤ℤ x → AtLeast w ys → AtLeast w (insert x ys)
unfolding AtLeast
insert-AtLeast w x [] h a = (h, tt)
insert-AtLeast w x (y ∷ ys) h (b, bs) = elim (Bool-cases (ltb_ℤ y x)) [
  | inl less ↦ rw less (b, insert-AtLeast w x ys h bs)
  | inr not_less ↦ rw not_less (h, (b, bs))
]

insert-IsAscending : (x : ℤ) (ys : List ℤ) → IsAscending ys → IsAscending (insert x ys)
unfolding IsAscending AtLeast
insert-IsAscending x [] a = (tt, tt)
insert-IsAscending x (y ∷ ys) (b, bs) = elim (Bool-cases (ltb_ℤ y x)) [
  | inl less ↦
      let lt = ltb_ℤ→lt y x less in
      rw less (insert-AtLeast y x ys (omega arith) b, insert-IsAscending x ys bs)
  | inr not_less ↦
      let le = not_ltb_ℤ→le y x not_less in rw not_less ((le, AtLeast-le x y ys le b), (b, bs))
]

sort-IsAscending : (xs : List ℤ) → IsAscending (sort xs)
unfolding IsAscending
sort-IsAscending [] = tt
sort-IsAscending (x ∷ xs) = insert-IsAscending x (sort xs) (sort-IsAscending xs)

AtLeast-nth : (x : ℤ) (ys : List ℤ) (i : ℕ) → AtLeast x ys → i < length ys → x ≤ℤ nth ys i
unfolding AtLeast
AtLeast-nth x [] i a h = absurd (omega arith)
AtLeast-nth x (y ∷ ys) zero (b, bs) h = b
AtLeast-nth x (y ∷ ys) (suc i) (b, bs) h = AtLeast-nth x ys i bs (omega arith)

AtLeast-count_below : (x : ℤ) (ys : List ℤ) → AtLeast x ys → count_below x ys ≡ 0
unfolding AtLeast
AtLeast-count_below x [] a = refl
AtLeast-count_below x (y ∷ ys) (b, bs) = ground (arith, AtLeast-count_below x ys bs)

-- The place of an element in an ascending list is its rank.
nth-rank :
    (xs : List ℤ) (i : ℕ)
    → IsAscending xs
    → i < length xs
    → (count_below (nth xs i) xs ≤ i) × (i < count_upto (nth xs i) xs)
unfolding IsAscending
nth-rank [] i a h = absurd (omega arith)
nth-rank (x ∷ xs) zero (b, bs) h = (ground (arith, AtLeast-count_below x xs b), ground arith)
nth-rank (x ∷ xs) (suc i) (b, bs) h =
    let (below, upto) = nth-rank xs i bs (omega arith) in
    let le = AtLeast-nth x xs i b (omega arith) in (ground (arith, below), ground (arith, upto, le))

rank_95_within : (n : ℕ) → 0 < n → rank_95 n < n
rank_95_within n h = ground arith

-- At most 95 in 100 samples, rounded down, are less than the percentile, and more are not greater.
pub calculate_p95-rank :
    (d : ℤ) (ds : List ℤ)
    → let p = calculate_p95 (d ∷ ds) in
      let n = length (d ∷ ds) in
      (count_below p (d ∷ ds) ≤ n * 19 / 20) × (n * 19 / 20 < count_upto p (d ∷ ds))
unfolding calculate_p95
calculate_p95-rank d ds =
    let all = d ∷ ds in
    let n = length all in
    let i = rank_95 n in
    let p = nth (sort all) i in
    let (below, upto) =
      nth-rank (sort all) i (sort-IsAscending all)
        (omega (arith, length-sort all, rank_95_within n (omega arith))) in
    let same : i ≡ n * 19 / 20 = ground arith in
    (
      omega (arith, below, count_if-sort (λ x. ltb_ℤ x p) all, same),
      omega (arith, upto, count_if-sort (λ x. leb_ℤ x p) all, same),
    )
