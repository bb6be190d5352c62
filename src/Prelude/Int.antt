-- ===== src/Prelude/Int.antt =====
-- `int` and `long`, as integers over the native numbers.
use Prim.Native.Nat.{ℕ, suc, ◌+◌, ◌-◌, ◌*◌, ◌/◌, ◌≤◌}
use mathlib.Core.Path.{◌≡◌}
use mathlib.Core.Bool.{Bool}
use native.Mathlib.Omega.{arith}
use cpp_custom.Prelude.Tests.{if◌then◌else◌, leb, ltb}

-- `negsuc n` is -(n + 1).
pub data ℤ : Type 0 where
  pos : ℕ → ℤ
  negsuc : ℕ → ℤ

-- Each integer is the difference of two numbers, of which one is 0.
abbrev pub above_zero : ℤ → ℕ
above_zero (pos n) = n
above_zero (negsuc n) = 0

abbrev pub below_zero : ℤ → ℕ
below_zero (pos n) = 0
below_zero (negsuc n) = suc n

abbrev pub minus : ℕ → ℕ → ℤ
minus a b = if leb b a then pos (a - b) else negsuc (b - a - 1)

infixl 65 ◌+ℤ◌ ◌-ℤ◌
infix 50 ◌≤ℤ◌
unfoldable pub ◌+ℤ◌ : ℤ → ℤ → ℤ
a +ℤ b = minus (above_zero a + above_zero b) (below_zero a + below_zero b)

unfoldable pub ◌-ℤ◌ : ℤ → ℤ → ℤ
a -ℤ b = minus (above_zero a + below_zero b) (below_zero a + above_zero b)

abbrev pub neg : ℤ → ℤ
neg a = minus (below_zero a) (above_zero a)

-- A product with a number, and the quotient by one, which is cut off towards zero.
abbrev pub times : ℤ → ℕ → ℤ
times a k = minus (above_zero a * k) (below_zero a * k)

abbrev pub quot : ℤ → ℕ → ℤ
quot a k = minus (above_zero a / k) (below_zero a / k)

abbrev pub ◌≤ℤ◌ : ℤ → ℤ → Type 0
a ≤ℤ b = above_zero a + below_zero b ≤ above_zero b + below_zero a

abbrev pub less : ℤ → ℤ → Bool
less a b = ltb (above_zero a + below_zero b) (above_zero b + below_zero a)

abbrev pub min : ℤ → ℤ → ℤ
min a b = if less b a then b else a

abbrev pub max : ℤ → ℤ → ℤ
max a b = if less a b then b else a

pub sum_parts :
    (a b : ℤ)
    → above_zero (a +ℤ b) + below_zero a + below_zero b
      ≡ below_zero (a +ℤ b) + above_zero a + above_zero b
unfolding ◌+ℤ◌
sum_parts a b = ground arith

pub difference_parts :
    (a b : ℤ)
    → above_zero (a -ℤ b) + below_zero a + above_zero b
      ≡ below_zero (a -ℤ b) + above_zero a + below_zero b
unfolding ◌-ℤ◌
difference_parts a b = ground arith
