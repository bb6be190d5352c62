-- ===== src/Page/Numbers.antt =====
-- `stoi`, with which domToDiv reads the numbers among the attributes.
use cpp_custom.Prelude.{
  Bool, Bytes, Option, [], ◌∷◌, true, false, ◌&&◌, ◌||◌, none, some, ℕ, ◌+◌, ◌-◌, ◌*◌, ◌^◌, ltb,
  leb, ◌==◌, if◌then◌else◌,
}
use cpp_custom.Prelude.Int.{ℤ, minus, neg, pos}
use cpp_custom.Page.Types.{Outcome, done, thrown}

abbrev is_space : ℕ → Bool
is_space c = c == 32 || leb 9 c && leb c 13

unfoldable pub after_spaces : Bytes → Bytes
after_spaces [] = []
after_spaces (c ∷ cs) = let later = after_spaces cs in if is_space c then later else c ∷ cs

-- 36 stands for a character that is no digit in any base.
unfoldable pub digit_of : ℕ → ℕ
digit_of c =
    if leb 48 c && leb c 57
    then c - 48
    else if leb 97 c && leb c 122
    then c - 87
    else if leb 65 c && leb c 90
    then c - 55
    else 36

-- The digits at the front of a text, behind those with the value `n`.
unfoldable pub digits : ℕ → ℕ → Bytes → ℕ
digits base n [] = n
digits base n (c ∷ cs) =
    let later = digits base (n * base + digit_of c) cs in if ltb (digit_of c) base then later else n

-- `none` without a digit.
unfoldable pub number : ℕ → Bytes → Option ℕ
unfolding digit_of digits
number base [] = none
number base (c ∷ cs) = if ltb (digit_of c) base then some (digits base 0 (c ∷ cs)) else none

abbrev is_x : ℕ → Bool
is_x c = c == b'x' || c == b'X'

-- Base 0 takes the base from the front of the number.
unfoldable pub prefixed : Bytes → Option ℕ
unfolding number
prefixed [] = none
prefixed (c ∷ []) = number 10 (c ∷ [])
prefixed (c ∷ d ∷ []) = if c == b'0' then number 8 (c ∷ d ∷ []) else number 10 (c ∷ d ∷ [])
prefixed (c ∷ d ∷ e ∷ cs) =
    if c == b'0'
    then (if is_x d && ltb (digit_of e) 16 then number 16 (e ∷ cs) else number 8 (c ∷ d ∷ e ∷ cs))
    else number 10 (c ∷ d ∷ e ∷ cs)

unfoldable pub magnitude : ℕ → Bytes → Option ℕ
unfolding number prefixed
magnitude base cs = if base == 0 then prefixed cs else number base cs

-- The value as an `int`, with an exception for a text without a number and for one out of range.
abbrev pub to_int : Bool → Option ℕ → Outcome ℤ
to_int minus none = thrown
to_int true (some n) = if leb n (2 ^ 31) then done (neg (pos n)) else thrown
to_int false (some n) = if ltb n (2 ^ 31) then done (pos n) else thrown

unfoldable pub signed : ℕ → Bytes → Outcome ℤ
unfolding magnitude
signed base [] = thrown
signed base (c ∷ cs) =
    if c == b'-'
    then to_int true (magnitude base cs)
    else if c == b'+'
    then to_int false (magnitude base cs)
    else to_int false (magnitude base (c ∷ cs))

-- `stoi(text, nullptr, base)` for a base of 0 or from 2 to 15.
unfoldable pub stoi : Bytes → ℕ → Outcome ℤ
unfolding signed after_spaces
stoi cs base = signed base (after_spaces cs)
