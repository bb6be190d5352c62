-- ===== src/Page/Sizes.antt =====
-- The numbers that the attributes of an element give.
use cpp_custom.Prelude.{Bytes, List, [], ◌∷◌, ℕ, ◌+◌, ◌*◌, ◌<◌}

-- Digits behind the value `n`, in a base.
abbrev pub value : ℕ → ℕ → List ℕ → ℕ
value base n [] = n
value base n (d ∷ ds) = value base (n * base + d) ds

abbrev pub AllDigits : List ℕ → Type 0
AllDigits [] = Unit {0}
AllDigits (d ∷ ds) = (d < 10) × AllDigits ds

abbrev pub decimal : List ℕ → Bytes
decimal [] = []
decimal (d ∷ ds) = (48 + d) ∷ decimal ds
