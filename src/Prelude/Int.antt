-- ===== src/Prelude/Int.antt =====
-- C++ `int` values as integers, under the names of the library's ℤ, over the native numbers.
use Prim.Native.Nat.{ℕ, zero, suc, ◌+◌, ◌-◌, ◌%◌, ◌^◌, ◌≤◌}
use mathlib.Core.Path.{◌≡◌}
use native.Mathlib.Omega.{arith}
use mathlib.Core.Bool.{Bool, true, false}
use asio_experiments.Prelude.Tests.{leb, ◌==◌, if◌then◌else◌}

-- `negsuc n` is -(n + 1).
pub data ℤ : Type 0 where
  pos : ℕ → ℤ
  negsuc : ℕ → ℤ

-- The largest `int`, 2 ^ 31 - 1.
abbrev pub int_max : ℕ
int_max = 2147483647

abbrev pub inc : ℤ → ℤ
inc (pos n) = pos (suc n)
inc (negsuc zero) = pos 0
inc (negsuc (suc n)) = negsuc n

abbrev pub dec : ℤ → ℤ
dec (pos zero) = negsuc 0
dec (pos (suc n)) = pos n
dec (negsuc n) = negsuc (suc n)

-- `0 < z`
abbrev pub is_pos : ℤ → Bool
is_pos (pos zero) = false
is_pos (pos (suc n)) = true
is_pos (negsuc n) = false

-- `z` as a condition: whether it is not 0.
abbrev pub non_zero : ℤ → Bool
non_zero (pos zero) = false
non_zero (pos (suc n)) = true
non_zero (negsuc n) = true

abbrev pub is_int_max : ℤ → Bool
is_int_max (pos n) = n == int_max
is_int_max (negsuc n) = false

-- a - b, as an integer.
abbrev pub sub_ℕ : ℕ → ℕ → ℤ
sub_ℕ a b = if leb b a then pos (a - b) else negsuc (b - a - 1)

-- `static_cast< int >(n)`
abbrev pub to_int : ℕ → ℤ
to_int n = let m : ℕ = n % 2 ^ 32 in if leb m int_max then pos m else negsuc (2 ^ 32 - m - 1)

-- `int` subtraction, away from the ends of the range.
abbrev pub sub_int : ℤ → ℤ → ℤ
sub_int (pos a) (pos b) = sub_ℕ a b
sub_int (pos a) (negsuc b) = pos (a + suc b)
sub_int (negsuc a) (pos b) = negsuc (a + b)
sub_int (negsuc a) (negsuc b) = sub_ℕ (suc b) (suc a)

pub to_int-eq_of_le : (n : ℕ) → n ≤ int_max → to_int n ≡ pos n
to_int-eq_of_le n h = ground arith
