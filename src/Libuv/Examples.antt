-- ===== src/Libuv/Examples.antt =====
-- A file of three bytes, and an answer of a DHCP server: the theorems at concrete inputs.
use cpp_custom.Prelude.{
  Bytes, Option, [], ◌∷◌, ◌++◌, true, some, ℕ, ◌<◌, ◌≡◌, refl, arith, codes, length, replicate,
}
use cpp_custom.Libuv.Dhcp.{on_read, printed, undefined}
use cpp_custom.Libuv.Offer.{on_read-yiaddr}
use cpp_custom.Libuv.Cat.{Loop, Stop, on_open}
use cpp_custom.Libuv.Copied.{Works, on_open-copies}

-- Reads give one byte at a time.
abbrev one_byte : ℕ → Bytes → Option ℕ
one_byte len [] = some 0
one_byte len (c ∷ cs) = some 1

abbrev slow : Loop
slow = record { reads = one_byte; writes = λ bs. some (length bs) }

slow-Works : Works slow
slow-Works = record {
  read = λ len c cs. (0, refl, omega arith, omega arith);
  at_end = λ len. refl;
  write = λ bs. refl;
}

on_open-copies_example :
    ((on_open slow (some (codes "cat"))).0 ≡ Stop.closed)
    × ((on_open slow (some (codes "cat"))).1.output ≡ codes "cat")
on_open-copies_example = on_open-copies slow slow-Works (codes "cat")

on_read-yiaddr_example :
    (on_read true (some (replicate 16 7 ++ (192 ∷ 168 ∷ 0 ∷ 17 ∷ [])))
      ≡ printed (192 ∷ 168 ∷ 0 ∷ 17 ∷ []))
    × ((short : Bytes) → length short < 20 → on_read true (some short) ≡ undefined)
on_read-yiaddr_example =
    on_read-yiaddr true (replicate 16 7) [] 192 168 0 17 refl (omega arith) (omega arith)
      (omega arith) (omega arith)
