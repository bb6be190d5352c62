-- ===== src/Net/Drain.antt =====
-- The epoll server's loop around read, for a socket with something to read.
use cpp_custom.Prelude.{
  Bytes, List, [], ◌∷◌, ◌++◌, true, false, some, ℕ, zero, suc, ◌-◌, ◌<◌, ◌≡◌, refl, ap, ◌∙◌, arith,
  codes, length,
}
use cpp_custom.Net.Echo.{NoZero}
use cpp_custom.Net.Epoll.{
  Read, Kernel, Go, zeros, filled, text_of, after, echo_text, read_turn, read_loop, bytes, nothing,
  waiting, go, waits, undefined,
}

-- What fits `buf` with a zero behind it, and has none in it.
abbrev pub Chunk : Bytes → Type 0
Chunk b = NoZero b × (length b < 16)

abbrev pub Chunks : List Bytes → Type 0
Chunks [] = Unit {0}
Chunks (b ∷ bs) = Chunk b × Chunks bs

text_of-append : (text : Bytes) (n : ℕ) → NoZero text → text_of (text ++ zeros (suc n)) ≡ some text
unfolding text_of
text_of-append [] n h = refl
text_of-append (c ∷ cs) n h = rw (h.0, text_of-append cs n h.1) refl

text_of-Chunk : (b : Bytes) → Chunk b → text_of (filled b) ≡ some b
unfolding filled
text_of-Chunk b h =
    let e : 16 - length b ≡ suc (16 - length b - 1) = omega (arith, h.1) in
    ap (λ n. text_of (b ++ zeros n)) e ∙ text_of-append b (16 - length b - 1) h.0

module _ (K : Kernel) (fd : ℕ) where
  -- The world after bytes were printed and written back.
  abbrev pub echoed : Bytes → K.World → K.World
  echoed b w = K.write fd b (K.print (codes "[+] data: " ++ b ++ codes "\n") w)

  -- The socket has these chunks to read, and then read ends so; errno is never EAGAIN.
  pub data Drains : K.World → List Bytes → Read → K.World → Type 0 where
    stops : {w w' : K.World} → K.read fd w ≡ (nothing, w') → Drains w [] nothing w'
    holds : {w w' : K.World} → K.read fd w ≡ (waiting, w') → Drains w [] waiting w'
    more :
        {w u w' : K.World} {b : Bytes} {bs : List Bytes} {e : Read}
        → K.read fd w ≡ (bytes b, u)
        → K.again u ≡ false
        → Drains (echoed b u) bs e w'
        → Drains w (b ∷ bs) e w'

  abbrev pub with_fd : List Bytes → List (ℕ × Bytes)
  with_fd [] = []
  with_fd (b ∷ bs) = (fd, b) ∷ with_fd bs

  -- Where read ends, the loop does; where it waits, so does the server.
  abbrev pub left : Read → K.World → List (ℕ × Bytes) → Go (K.World × List (ℕ × Bytes))
  left nothing w out = go (w, out)
  left waiting w out = waits
  left (bytes b) w out = undefined

  left-more :
      {w w' : K.World} {bs : List Bytes} {e : Read} (sent : ℕ × Bytes) (out : List (ℕ × Bytes))
      → Drains w bs e w'
      → after K sent (left e w' out) ≡ left e w' (sent ∷ out)
  left-more sent out (stops r) = refl
  left-more sent out (holds r) = refl
  left-more sent out (more r a d) = left-more sent out d

  pub read_loop-Drains :
      (fuel : ℕ) {w w' : K.World} {bs : List Bytes} {e : Read}
      → length bs < fuel
      → Chunks bs
      → Drains w bs e w'
      → read_loop K fuel fd w ≡ left e w' (with_fd bs)
  unfolding read_loop read_turn echo_text
  read_loop-Drains zero lt h d = absurd (omega arith)
  read_loop-Drains (suc fuel) lt h (stops r) = rw r refl
  read_loop-Drains (suc fuel) lt h (holds r) = rw r refl
  read_loop-Drains (suc fuel) lt h (more {b = b} r a d) =
      rw (r, a, text_of-Chunk b h.0, read_loop-Drains fuel (omega (arith, lt)) h.1 d)
        (left-more (fd, b) _ d)

  -- What is read while errno is EAGAIN is dropped, and the loop ends.
  pub read_loop-again :
      {w u : K.World} {b : Bytes} (fuel : ℕ)
      → K.read fd w ≡ (bytes b, u)
      → K.again u ≡ true
      → read_loop K (suc fuel) fd w ≡ go (u, [])
  unfolding read_loop read_turn
  read_loop-again fuel r a = rw (r, a) refl
