-- ===== src/Quickjs/Fib.antt =====
-- quickjs/fib/fib.c: fib, for scripts.
use cpp_custom.Prelude.{Option, none, some, ℕ, zero, suc, ◌+◌, ◌^◌, ltb, if◌then◌else◌}
use cpp_custom.Prelude.Int.{ℤ, pos, negsuc}

-- The sum of two `int`s that are not negative; `none` is one that does not fit, which is undefined.
abbrev pub fit : ℕ → Option ℕ
fit n = if ltb n (2 ^ 31) then some n else none

abbrev pub sum : Option ℕ → Option ℕ → Option ℕ
sum none b = none
sum (some a) none = none
sum (some a) (some b) = fit (a + b)

-- fib of a number that is not negative.
unfoldable pub fib : ℕ → Option ℕ
fib zero = some 0
fib (suc zero) = some 1
fib (suc (suc n)) = sum (fib (suc n)) (fib n)

-- What scripts call: an exception where the argument is no number.
pub data Value : Type 0 where
  int32 : ℕ → Value
  exception undefined : Value

abbrev pub value_of : Option ℕ → Value
value_of none = undefined
value_of (some n) = int32 n

unfoldable pub js_fib : Option ℤ → Value
js_fib none = exception
js_fib (some (negsuc n)) = int32 0
js_fib (some (pos n)) = value_of (fib n)
