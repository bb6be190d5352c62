-- ===== src/Libuv/Dhcp.antt =====
-- libuv/udp-dhcp.cpp: the message that asks for an address, and what is read from the answer.
use cpp_custom.Prelude.{
  Bool, Bytes, List, Option, [], ◌∷◌, ◌++◌, true, false, none, some, ℕ, suc, ◌+◌, ◌*◌, ◌/◌, ◌%◌,
  ◌^◌, get_elem?, set, replicate,
}

-- The assignments to `buffer.base` in order, with the byte of random(); `msg` is the buffer.
abbrev pub put : List (ℕ × ℕ) → Bytes → Bytes
put [] msg = msg
put ((i, b) ∷ bs) msg = put bs (set msg i b)

-- The bytes from an index on.
abbrev pub run_from : ℕ → Bytes → List (ℕ × ℕ)
run_from i [] = []
run_from i (b ∷ bs) = (i, b) ∷ run_from (suc i) bs

unfoldable pub make_discover_msg : ℕ → Bytes
make_discover_msg random =
    put
      (run_from 0 (1 ∷ 1 ∷ 6 ∷ 0 ∷ random % 2 ^ 8 ∷ [])
        ++ ((8, 0)
            ∷ (10, 128)
            ∷ (run_from 28 (228 ∷ 206 ∷ 143 ∷ 19 ∷ 246 ∷ 212 ∷ [])
                ++ (run_from 236 (99 ∷ 130 ∷ 83 ∷ 99 ∷ [])
                    ++ (run_from 240 (53 ∷ 1 ∷ 1 ∷ [])
                        ++ run_from 243 (55 ∷ 4 ∷ 1 ∷ 3 ∷ 15 ∷ 6 ∷ []))))))
      (replicate 256 0)

-- A 32-bit word in memory on a machine whose lowest byte comes first, or last.
abbrev pub load32 : Bool → ℕ × ℕ × ℕ × ℕ → ℕ
load32 true (a, b, c, d) = a + b * 2 ^ 8 + c * 2 ^ 16 + d * 2 ^ 24
load32 false (a, b, c, d) = d + c * 2 ^ 8 + b * 2 ^ 16 + a * 2 ^ 24

abbrev pub byte_of : ℕ → ℕ → ℕ
byte_of x shift = x / shift % 2 ^ 8

abbrev pub ntohl : Bool → ℕ → ℕ
ntohl true x =
    byte_of x (2 ^ 24)
    + byte_of x (2 ^ 16) * 2 ^ 8
    + byte_of x (2 ^ 8) * 2 ^ 16
    + byte_of x 1 * 2 ^ 24
ntohl false x = x

-- `ip` in the order in which it is printed, 3 to 0.
unfoldable pub offered_ip : Bool → ℕ × ℕ × ℕ × ℕ → List ℕ
offered_ip little word =
    let ipbin = ntohl little (load32 little word) in
    byte_of ipbin (2 ^ 24) ∷ byte_of ipbin (2 ^ 16) ∷ byte_of ipbin (2 ^ 8) ∷ byte_of ipbin 1 ∷ []

-- What on_read does: `closed` after an error, or the address printed and the receiving stopped;
-- `undefined` reads bytes of the buffer that were not received, or behind it.
pub data OnRead : Type 0 where
  closed : OnRead
  printed : List ℕ → OnRead
  undefined : OnRead

abbrev pub word_at : Option ℕ → Option ℕ → Option ℕ → Option ℕ → Option (ℕ × ℕ × ℕ × ℕ)
word_at (some a) (some b) (some c) (some d) = some (a, b, c, d)
word_at _ _ _ _ = none

abbrev pub print_word : Bool → Option (ℕ × ℕ × ℕ × ℕ) → OnRead
print_word little none = undefined
print_word little (some word) = printed (offered_ip little word)

-- `received` are the bytes read, `none` an error. The word `as_integer[4]` is the bytes 16 to 19.
unfoldable pub on_read : Bool → Option Bytes → OnRead
on_read little none = closed
on_read little (some received) = print_word little (
    word_at (get_elem? received 16) (get_elem? received 17) (get_elem? received 18)
      (get_elem? received 19))
