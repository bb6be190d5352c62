-- ===== src/Quickjs/Sequence.antt =====
-- fib and the Fibonacci numbers.
use cpp_custom.Prelude.{ℕ, zero, suc, ◌+◌}

-- The numbers from two that follow each other, by one addition each.
unfoldable pub from : ℕ → ℕ → ℕ → ℕ
from a b zero = a
from a b (suc n) = from b (a + b) n

abbrev pub fibonacci : ℕ → ℕ
fibonacci n = from 0 1 n
