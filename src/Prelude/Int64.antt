-- ===== src/Prelude/Int64.antt =====
-- Go's int64: two's-complement arithmetic on integers, with its wrap-around, and the cases in which
-- nothing wraps.
use Prim.Native.Nat.{ℕ, ◌+◌, ◌-◌, ◌%◌, ◌^◌, ◌≤◌}
use mathlib.Core.Path.{◌≡◌}
use native.Mathlib.Omega.{arith}
use mpmc_queue.Prelude.Tests.{ltb, if◌then◌else◌}
use mpmc_queue.Prelude.Int.{ℤ, pos, negsuc, ◌+ℤ◌, ◌-ℤ◌}

-- math.MaxInt64
abbrev pub max_int64 : ℕ
max_int64 = 9223372036854775807

-- The int64 that is congruent to an integer modulo 2^64.
unfoldable pub wrap64 : ℤ → ℤ
wrap64 (pos n) = let m = n % 2 ^ 64 in if ltb m (2 ^ 63) then pos m else negsuc (2 ^ 64 - 1 - m)
wrap64 (negsuc n) = let m = n % 2 ^ 64 in if ltb m (2 ^ 63) then negsuc m else pos (2 ^ 64 - 1 - m)

unfoldable pub add64 : ℤ → ℤ → ℤ
add64 a b = wrap64 (a +ℤ b)

unfoldable pub sub64 : ℤ → ℤ → ℤ
sub64 a b = wrap64 (a -ℤ b)

pub wrap64-pos : (n : ℕ) → n ≤ max_int64 → wrap64 (pos n) ≡ pos n
unfolding wrap64
wrap64-pos n h = ground arith

pub wrap64-negsuc : (n : ℕ) → n ≤ max_int64 → wrap64 (negsuc n) ≡ negsuc n
unfolding wrap64
wrap64-negsuc n h = ground arith

-- A sum of two natural numbers that fits does not wrap.
pub add64-pos : (a b : ℕ) → a + b ≤ max_int64 → add64 (pos a) (pos b) ≡ pos (a + b)
unfolding add64 ◌+ℤ◌
add64-pos a b h = ground (arith, wrap64-pos (a + b))

-- A difference of two int64 that are not negative does not wrap.
pub sub64-pos : (a b : ℕ) → a ≤ max_int64 → b ≤ max_int64 → sub64 (pos a) (pos b) ≡ pos a -ℤ pos b
unfolding sub64 ◌-ℤ◌
sub64-pos a b h k = ground (arith, wrap64-pos (a - b), wrap64-negsuc (b - a - 1))

-- One less.
pub add64-neg_one : (a : ℕ) → a + 1 ≤ max_int64 → add64 (pos (a + 1)) (negsuc 0) ≡ pos a
unfolding add64 ◌+ℤ◌
add64-neg_one a h = ground (arith, wrap64-pos a)
