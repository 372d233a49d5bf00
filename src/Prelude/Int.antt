-- ===== src/Prelude/Int.antt =====
-- Go's `int` on a 64-bit target: an integer, with the wrap-around of its increment.
use Prim.Native.Nat.{ℕ, zero, suc, ◌+◌, ◌≤◌}
use mathlib.Core.Path.{◌≡◌}
use mathlib.Core.Bool.{Bool, true, false}
use native.Mathlib.Omega.{arith}
use agents_coworkers.Prelude.Tests.{ltb, leb, nat_eq, if◌then◌else◌}

-- `negsuc n` is -(n + 1).
pub data ℤ : Type 0 where
  pos : ℕ → ℤ
  negsuc : ℕ → ℤ

abbrev pub max_int : ℕ
max_int = 9223372036854775807

abbrev pub pos_part : ℤ → ℕ
pos_part (pos n) = n
pos_part (negsuc n) = 0

-- `a < 0`
abbrev pub is_neg : ℤ → Bool
is_neg (pos n) = false
is_neg (negsuc n) = true

-- `a > 0`
abbrev pub is_pos : ℤ → Bool
is_pos (pos n) = ltb 0 n
is_pos (negsuc n) = false

-- `a == n` for a literal `n`
abbrev pub int_eq : ℤ → ℕ → Bool
int_eq (pos a) n = nat_eq a n
int_eq (negsuc a) n = false

-- `a <= b`
abbrev pub int_le : ℤ → ℤ → Bool
int_le (pos a) (pos b) = leb a b
int_le (pos a) (negsuc b) = false
int_le (negsuc a) (pos b) = true
int_le (negsuc a) (negsuc b) = leb b a

-- `a++`, which wraps from the largest value to the smallest.
unfoldable pub increment : ℤ → ℤ
increment (pos n) = if ltb n max_int then pos (n + 1) else negsuc max_int
increment (negsuc zero) = pos 0
increment (negsuc (suc n)) = negsuc n

-- An increment that did not wrap below zero went up by one.
pub increment-pos_part :
    (a : ℤ)
    → is_neg a ≡ false
    → is_neg (increment a) ≡ false
    → pos_part (increment a) ≡ pos_part a + 1
unfolding increment
increment-pos_part (pos n) h k = ground arith
increment-pos_part (negsuc n) h k = absurd (ground arith)

-- A failed test `b <= a` on a nonnegative `a` orders the two.
pub int_le-lt : (a b : ℤ) → is_neg a ≡ false → int_le b a ≡ false → suc (pos_part a) ≤ pos_part b
int_le-lt (pos a) (pos b) h k = ground arith
int_le-lt (pos a) (negsuc b) h k = absurd (ground arith)
int_le-lt (negsuc a) b h k = absurd (ground arith)
