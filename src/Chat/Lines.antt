-- ===== src/Chat/Lines.antt =====
-- What goes through a buffer of 80 bytes, as a string and as a line that is typed.
use cpp_custom.Prelude.{
  Bytes, [], ◌∷◌, ◌++◌, false, none, some, ℕ, zero, suc, ◌-◌, ◌≤◌, ◌<◌, ◌≡◌, refl, ap, ◌∙◌, arith,
  ◌==◌, length,
}
use cpp_custom.Net.Echo.{NoZero}
use cpp_custom.Chat.Text.{zeros, buffer, prepend, string_of, type_line}

abbrev pub NoNewline : Bytes → Type 0
NoNewline [] = Unit {0}
NoNewline (c ∷ cs) = ((c == 10) ≡ false) × NoNewline cs

string_of-append :
    (text : Bytes) (n : ℕ) → NoZero text → string_of (text ++ zeros (suc n)) ≡ some text
unfolding string_of prepend
string_of-append [] n h = refl
string_of-append (c ∷ cs) n h = rw (h.0, string_of-append cs n h.1) refl

replicate-sub : (k n : ℕ) → n < k → zeros (k - n) ≡ zeros (suc (k - n - 1))
replicate-sub k n h = let e : k - n ≡ suc (k - n - 1) = omega arith in ap zeros e

pub string_of-buffer :
    (text : Bytes) → NoZero text → length text < 80 → string_of (buffer text) ≡ some text
unfolding buffer
string_of-buffer text h lt =
    ap (λ rest. string_of (text ++ rest)) (replicate-sub 80 (length text) lt)
    ∙ string_of-append text (80 - length text - 1) h

pub string_of-full : (text : Bytes) → NoZero text → string_of text ≡ none
unfolding string_of prepend
string_of-full [] h = refl
string_of-full (c ∷ cs) h = rw (h.0, string_of-full cs h.1) refl

pub type_line-line :
    (room : ℕ) (line rest : Bytes)
    → NoNewline line
    → length line < room
    → type_line room (line ++ 10 ∷ rest) ≡ some (line ++ 10 ∷ [], rest)
unfolding type_line
type_line-line zero line rest h lt = absurd (omega arith)
type_line-line (suc room) [] rest h lt = refl
type_line-line (suc room) (c ∷ cs) rest h lt =
    rw (h.0, type_line-line room cs rest h.1 (omega arith)) refl

pub type_line-long :
    (room : ℕ) (line rest : Bytes)
    → NoNewline line
    → room ≤ length line
    → type_line room (line ++ rest) ≡ none
unfolding type_line
type_line-long zero line rest h le = refl
type_line-long (suc room) [] rest h le = absurd (omega arith)
type_line-long (suc room) (c ∷ cs) rest h le =
    rw (h.0, type_line-long room cs rest h.1 (omega arith)) refl

-- Input that ends before the line does.
pub type_line-endless : (room : ℕ) (line : Bytes) → NoNewline line → type_line room line ≡ none
unfolding type_line
type_line-endless zero line h = refl
type_line-endless (suc room) [] h = rw (type_line-endless room [] tt) refl
type_line-endless (suc room) (c ∷ cs) h = rw (h.0, type_line-endless room cs h.1) refl
