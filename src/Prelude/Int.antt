-- ===== src/Prelude/Int.antt =====
-- Go's `int` on a 64-bit platform: signed integers, with the wrap-around of its sums and products.
use Prim.Native.Nat.{ℕ, ◌+◌, ◌-◌, ◌*◌, ◌/◌, ◌%◌, ◌^◌, ◌<◌}
use mathlib.Core.Path.{◌≡◌}
use mathlib.Core.Bool.{Bool, true, false}
use native.Mathlib.Omega.{arith}
use pzsvc_exec.Prelude.Tests.{ltb, leb, if◌then◌else◌}

-- `negsuc n` is -(n + 1).
pub data ℤ : Type 0 where
  pos : ℕ → ℤ
  negsuc : ℕ → ℤ

-- The integer that a 64-bit word stands for in two's complement.
abbrev pub of_word : ℕ → ℤ
of_word w = if ltb w (2 ^ 63) then pos w else negsuc (2 ^ 64 - 1 - w)

-- The word of an integer: its value modulo 2 ^ 64.
abbrev pub word : ℤ → ℕ
word (pos n) = n % 2 ^ 64
word (negsuc n) = 2 ^ 64 - 1 - n % 2 ^ 64

-- a + b, a * b
abbrev pub add : ℤ → ℤ → ℤ
add a b = of_word ((word a + word b) % 2 ^ 64)

abbrev pub mul : ℤ → ℤ → ℤ
mul a b = of_word (word a * word b % 2 ^ 64)

-- a / k for a constant k > 0: the quotient is truncated towards zero.
abbrev pub div : ℤ → ℕ → ℤ
div (pos n) k = pos (n / k)
div (negsuc n) k = if leb k (n + 1) then negsuc ((n + 1) / k - 1) else pos 0

-- a > 0
abbrev pub positive : ℤ → Bool
positive (pos n) = ltb 0 n
positive (negsuc n) = false

-- n >= z for a count n
abbrev pub at_least : ℕ → ℤ → Bool
at_least n (pos m) = leb m n
at_least n (negsuc m) = true

abbrev pub is_zero : ℤ → Bool
is_zero (pos n) = leb n 0
is_zero (negsuc n) = false

pub add_pos : (m n : ℕ) → m + n < 2 ^ 63 → add (pos m) (pos n) ≡ pos (m + n)
add_pos m n h = ground arith

pub mul_two : (n : ℕ) → n * 2 < 2 ^ 63 → mul (pos n) (pos 2) ≡ pos (n * 2)
mul_two n h = ground arith

pub mul_five : (n : ℕ) → n * 5 < 2 ^ 63 → mul (pos n) (pos 5) ≡ pos (n * 5)
mul_five n h = ground arith
