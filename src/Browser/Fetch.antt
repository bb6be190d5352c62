-- ===== src/Browser/Fetch.antt =====
-- What a page's text is after it was read from a file or from the network.

use cpp_custom.Prelude.{
  append-nil, append_assoc, Bool, Bytes, List, Option, [], ap, arith, false, if◌then◌else◌, inl,
  inr, Bool-cases, leb, length, length-append, none, refl, some, suc, sym, take, true, zero, ℕ, ◌%◌,
  ◌*◌, ◌++◌, ◌+◌, ◌<◌, ◌==◌, ◌^◌, ◌∙◌, ◌∷◌, ◌≡◌, ◌≤◌,
}
use cpp_custom.Browser.Content.{
  Memory, c_string, empty_memory, get_file_content, get_line, grow_buffer, read_lines, split_line,
}

take-length : (xs : Bytes) → take (length xs) xs ≡ xs
take-length [] = refl
take-length (x ∷ xs) = ap (λ t. x ∷ t) (take-length xs)

-- The text without its line ends.
unfoldable pub without_ends : Bytes → Bytes
without_ends [] = []
without_ends (c ∷ cs) = if c == 10 then without_ends cs else c ∷ without_ends cs

split_line-without :
    (xs : Bytes) → without_ends xs ≡ (split_line xs).0 ++ without_ends (split_line xs).1
unfolding split_line without_ends
split_line-without [] = refl
split_line-without (c ∷ cs) = elim (Bool-cases (c == 10)) [
  | inl e ↦ rw e refl
  | inr e ↦ rw e (ap (λ t. c ∷ t) (split_line-without cs))
]

split_line-length : (xs : Bytes) → length (split_line xs).1 ≤ length xs
unfolding split_line
split_line-length [] = omega arith
split_line-length (c ∷ cs) = elim (Bool-cases (c == 10)) [
  | inl e ↦ rw e (omega arith)
  | inr e ↦ rw e (omega (arith, split_line-length cs))
]

split_line-shorter : (c : ℕ) (cs : Bytes) → length (split_line (c ∷ cs)).1 ≤ length cs
unfolding split_line
split_line-shorter c cs = elim (Bool-cases (c == 10)) [
  | inl e ↦ rw e (omega arith)
  | inr e ↦ rw e (split_line-length cs)
]

read_lines-without :
    (f : ℕ) (content file : Bytes)
    → length file < f
    → read_lines f content file ≡ some (content ++ without_ends file)
unfolding read_lines get_line without_ends
read_lines-without zero content file h = absurd (omega arith)
read_lines-without (suc f) content [] h = ap some (sym (append-nil content))
read_lines-without (suc f) content (c ∷ cs) h =
    let line = (split_line (c ∷ cs)).0 in
    let rest = (split_line (c ∷ cs)).1 in
    read_lines-without f (content ++ line) rest (omega (arith, split_line-shorter c cs))
    ∙ ap some (
        append_assoc content line (without_ends rest)
        ∙ ap (λ t. content ++ t) (sym (split_line-without (c ∷ cs))))

-- getFileContent of a file that opens ends, and returns the file's bytes with every line end left
-- out, so that the words at the end of a line and at the start of the next are one.
pub get_file_content-without :
    (file : Bytes) → get_file_content (some file) ≡ some (without_ends file)
unfolding get_file_content
get_file_content-without file = read_lines-without (suc (length file)) [] file (omega arith)

-- The chunks that curl hands over one by one; it stops where less was taken than given.
abbrev pub go_on : (Memory → Option Memory) → ℕ → Option (ℕ × Memory) → Option Memory
go_on again n none = none
go_on again n (some (taken, mem)) = if taken == n then again mem else some mem

unfoldable pub receive : (ℕ → Bool) → List Bytes → Memory → Option Memory
receive fits [] mem = some mem
receive fits (c ∷ cs) mem = go_on (receive fits cs) (length c) (grow_buffer fits c 1 (length c) mem)

abbrev pub joined : List Bytes → Bytes
joined [] = []
joined (c ∷ cs) = c ++ joined cs

-- No byte is zero.
abbrev pub NoZero : Bytes → Type 0
NoZero [] = Unit {0}
NoZero (c ∷ cs) = ((c == 0) ≡ false) × NoZero cs

grow_buffer-all :
    (c : Bytes) (mem : Memory)
    → mem.size ≡ length mem.buf
    → length mem.buf + length c < 2 ^ 64
    → grow_buffer (λ _. true) c 1 (length c) mem
      ≡ some (
        length c,
        record {
          buf = mem.buf ++ c;
          size = length mem.buf + length c;
          capacity = length mem.buf + length c;
        },
      )
unfolding grow_buffer
grow_buffer-all c mem e lt =
    let real : (1 * length c) % 2 ^ 64 ≡ length c = omega arith in
    let total : (length mem.buf + length c) % 2 ^ 64 ≡ length mem.buf + length c = omega arith in
    let fits : leb (length c) (length c) ≡ true = ground arith in
    let fits' : leb (length mem.buf + length c) (length mem.buf + length c) ≡ true = ground arith in
    rw (real, e, total, fits, fits', take-length mem.buf, take-length c) refl

receive-joined :
    (cs : List Bytes) (mem : Memory)
    → mem.size ≡ length mem.buf
    → length mem.buf + length (joined cs) < 2 ^ 64
    → (mem' : Memory) × (receive (λ _. true) cs mem ≡ some mem') × (mem'.buf ≡ mem.buf ++ joined cs)
unfolding receive
receive-joined [] mem e lt = (mem, refl, sym (append-nil mem.buf))
receive-joined (c ∷ cs) mem e lt =
    let n : ℕ = length mem.buf + length c in
    let grown : Memory = record { buf = mem.buf ++ c; size = n; capacity = n } in
    let sizes = length-append c (joined cs) in
    let (mem', run, buf) =
      receive-joined cs grown (sym (length-append mem.buf c))
        (omega (arith, sizes, length-append mem.buf c)) in
    let same : (length c == length c) ≡ true = ground arith in
    (
      mem',
      rw (grow_buffer-all c mem e (omega (arith, sizes)), same) run,
      buf ∙ append_assoc mem.buf c (joined cs),
    )

c_string-NoZero : (xs : Bytes) → NoZero xs → c_string xs ≡ none
unfolding c_string
c_string-NoZero [] h = refl
c_string-NoZero (c ∷ cs) h = rw (h.0, c_string-NoZero cs h.1) refl

-- Chunks of less than 2^64 bytes together, for each of which realloc succeeds, fill the buffer of
-- getRemoteContent with their bytes in order. If none of these is zero, the string that is made of
-- the buffer reads past the bytes written: no call puts a zero behind them.
pub receive-unterminated :
    (cs : List Bytes)
    → length (joined cs) < 2 ^ 64
    → NoZero (joined cs)
    → (mem : Memory) × (receive (λ _. true) cs empty_memory ≡ some mem)
      × (mem.buf ≡ joined cs)
      × (c_string mem.buf ≡ none)
receive-unterminated cs lt h =
    let (mem, run, buf) = receive-joined cs empty_memory refl (omega arith) in
    (mem, run, buf, ap c_string buf ∙ c_string-NoZero (joined cs) h)
