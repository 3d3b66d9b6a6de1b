-- ===== src/Prelude/Ints.antt =====
-- Signed integers over the native numbers, and the `int` that a 32-bit pattern stands for.
use Prim.Native.Nat.{ℕ, ◌-◌, ◌%◌, ◌≤◌, ◌<◌}
use mathlib.Core.Path.{◌≡◌}
use mathlib.Core.Bool.{Bool, true, false}
use native.Mathlib.Omega.{arith}
use rover_ops_jm.Prelude.Tests.{leb, ltb, if◌then◌else◌}

-- `negsuc n` is -(n + 1).
pub data ℤ : Type 0 where
  pos : ℕ → ℤ
  negsuc : ℕ → ℤ

abbrev pub le_int : ℤ → ℤ → Bool
le_int (pos a) (pos b) = leb a b
le_int (pos a) (negsuc b) = false
le_int (negsuc a) (pos b) = true
le_int (negsuc a) (negsuc b) = leb b a

-- `a > 0`.
abbrev pub is_positive : ℤ → Bool
is_positive (pos a) = ltb 0 a
is_positive (negsuc a) = false

-- `std::min`.
abbrev pub min_int : ℤ → ℤ → ℤ
min_int a b = if le_int b a then b else a

abbrev pub int32 : ℕ → ℤ
int32 n =
    if ltb (n % 4294967296) 2147483648
    then pos (n % 4294967296)
    else negsuc (4294967295 - n % 4294967296)

-- `std::max` of two patterns.
abbrev pub max_int32 : ℕ → ℕ → ℕ
max_int32 a b = if le_int (int32 b) (int32 a) then a else b

pub int32_small : (n : ℕ) → n < 2147483648 → int32 n ≡ pos n
int32_small n h = ground arith

pub max_int32_bounds :
    (a b : ℕ) → a < 2147483648 → b < 2147483648 → a ≤ max_int32 a b × (b ≤ max_int32 a b)
max_int32_bounds a b ha hb = ground arith

pub int32_large : (n : ℕ) → 2147483648 ≤ n → n < 4294967296 → int32 n ≡ negsuc (4294967295 - n)
int32_large n h k = ground arith
