-- ===== src/Html/Progress.antt =====
-- gettok ends unless it meets a string with no end, moves forward, and counts what it reads.
use cpp_custom.Html.Chars.{Char, Token, chr, eof, is_tok_eof}
use cpp_custom.Html.Lexer.{
  Lexer, char_byte, gettok, identifier_from, is_slash, push_identifier, read_char, read_from,
  skip_from, skip_spaces, string_from, string_token, tag_token, token_at,
}
use cpp_custom.Html.Result.{Result, diverges, ok, out_of_fuel, thrown, ◌>>=◌}
use cpp_custom.Prelude.{
  Bool, Bytes, [], arith, if◌then◌else◌, length, refl, suc, zero, ℕ, ◌++◌, ◌+◌, ◌<◌, ◌∷◌, ◌≡◌, ◌≤◌,
}

abbrev pub pending : Char → ℕ
pending eof = 0
pending (chr c) = 1

-- The characters that are still to be looked at: those left, and the one at hand.
abbrev pub size : Lexer → ℕ
size l = length l.rest + pending l.last_char

-- The length of the text as far as the lexer knows it.
abbrev pub extent : Lexer → ℕ
extent l = l.cur_tok_index + length l.rest

read_from-extent : (xs : Bytes) (l : Lexer) → extent (read_from xs l) ≡ l.cur_tok_index + length xs
read_from-extent [] l = refl
read_from-extent (c ∷ cs) l = omega arith

read_from-size : (xs : Bytes) (l : Lexer) → size (read_from xs l) ≤ length xs
read_from-size [] l = omega arith
read_from-size (c ∷ cs) l = ground arith

skip_from-extent : (xs : Bytes) (l : Lexer) → l.rest ≡ xs → extent (skip_from xs l) ≡ extent l
unfolding skip_from
skip_from-extent [] l e = ground arith
skip_from-extent (c ∷ cs) l e = ground (arith, skip_from-extent cs (read_from (c ∷ cs) l))

skip_from-size : (xs : Bytes) (l : Lexer) → l.rest ≡ xs → size (skip_from xs l) ≤ size l
unfolding skip_from
skip_from-size [] l e = ground arith
skip_from-size (c ∷ cs) l e = ground (arith, skip_from-size cs (read_from (c ∷ cs) l))

identifier_from-extent :
    (xs : Bytes) (l : Lexer) → extent (identifier_from xs l) ≡ l.cur_tok_index + length xs
unfolding identifier_from
identifier_from-extent [] l = refl
identifier_from-extent (c ∷ cs) l =
    ground (arith, identifier_from-extent cs (push_identifier c (read_from (c ∷ cs) l)))

identifier_from-size : (xs : Bytes) (l : Lexer) → size (identifier_from xs l) ≤ length xs
unfolding identifier_from
identifier_from-size [] l = omega arith
identifier_from-size (c ∷ cs) l =
    ground (arith, identifier_from-size cs (push_identifier c (read_from (c ∷ cs) l)))

-- A token that is not the end costs a character.
abbrev pub cost : Token → ℕ
cost t = if is_tok_eof t then 0 else 1

-- An outcome of gettok with the extent `e` and at most `n` characters still to be looked at, the
-- token counted as one.
abbrev pub After : ℕ → ℕ → Result (Token × Lexer) → Type 0
After e n (ok (t, l)) = (extent l ≡ e) × (size l + cost t ≤ n)
After e n diverges = Unit
After e n thrown = ⊥
After e n out_of_fuel = ⊥

-- The loop of a string reads at least the closing quote, or never stops.
abbrev Read : ℕ → ℕ → Result Lexer → Type 0
Read n e (ok l) = (extent l ≡ e) × (size l ≤ n)
Read n e diverges = Unit
Read n e thrown = ⊥
Read n e out_of_fuel = ⊥

string_from-Read :
    (xs str : Bytes) (l : Lexer)
    → Read (length xs) (l.cur_tok_index + length xs) (string_from xs str l)
unfolding string_from
string_from-Read [] str l = tt
string_from-Read (c ∷ cs) str l =
    let found : Lexer = record (read_from (c ∷ cs) l) { str_val = str } in
    let rest = string_from-Read cs (str ++ c ∷ []) (read_from (c ∷ cs) l) in
    ground (arith, read_from-extent cs found, read_from-size cs found, rest)

string_token-After : (l : Lexer) → After (extent l) (suc (length l.rest)) (string_token l)
unfolding string_token
string_token-After l = ground (arith, string_from-Read l.rest (char_byte l.last_char ∷ []) l)

tag_token-After :
    (e n : ℕ) (end : Bool) (r : Result (Token × Lexer))
    → After e n r
    → After e (suc n) (r >>= tag_token end)
unfolding tag_token
tag_token-After e n end (ok (t, l)) h =
    let named : Lexer = record l { tag_str = l.identifier_str } in
    ground (arith, read_from-extent l.rest named, read_from-size l.rest named)
tag_token-After e n end diverges h = tt
tag_token-After e n end thrown h = h
tag_token-After e n end out_of_fuel h = h

-- Behind a `<`, with or without a `/`.
abbrev open_tag : Lexer → Lexer
open_tag l =
    let opened = read_char l in if is_slash opened.last_char then read_char opened else opened

open_tag-facts :
    (l : Lexer) → (extent (open_tag l) ≡ extent l) × (size (open_tag l) ≤ length l.rest)
open_tag-facts l =
    let opened = read_char l in
    ground (
      arith,
      read_from-extent l.rest l,
      read_from-size l.rest l,
      read_from-extent opened.rest opened,
      read_from-size opened.rest opened,
    )

After-mono : (e n k : ℕ) (r : Result (Token × Lexer)) → n ≤ k → After e n r → After e k r
After-mono e n k (ok (t, l)) le h = omega arith
After-mono e n k diverges le h = tt
After-mono e n k thrown le h = h
After-mono e n k out_of_fuel le h = h

module _ (again : Lexer → Result (Token × Lexer)) (l : Lexer)
    (h : (l' : Lexer) → size l' < size l → After (extent l') (size l') (again l')) where
  tag-After :
      (c : ℕ)
      → l.last_char ≡ chr c
      → After
          (extent l)
          (size l)
          (again (open_tag l) >>= tag_token (is_slash (read_char l).last_char))
  tag-After c e =
      let f = open_tag-facts l in
      let full : size l ≡ suc (length l.rest) = ground arith in
      let inner : After (extent l) (length l.rest) (again (open_tag l)) = rw f.0 at (
        After-mono (extent (open_tag l)) (size (open_tag l)) (length l.rest) (again (open_tag l))
          f.1 (h (open_tag l) (omega arith))) in
      rw full (
        tag_token-After (extent l) (length l.rest) (is_slash (read_char l).last_char)
          (again (open_tag l)) inner)

  token_at-After : (c : Char) → l.last_char ≡ c → After (extent l) (size l) (token_at again c l)
  unfolding token_at
  token_at-After eof e = ground arith
  token_at-After (chr c) e =
      let ident : Lexer = record l { identifier_str = c ∷ [] } in
      ground (
        arith,
        tag-After c e,
        string_token-After (read_char l),
        read_from-extent l.rest l,
        read_from-size l.rest l,
        identifier_from-extent l.rest ident,
        identifier_from-size l.rest ident,
      )

pub gettok-After : (f : ℕ) (l : Lexer) → size l < f → After (extent l) (size l) (gettok f l)
unfolding gettok
gettok-After zero l h = absurd (omega arith)
gettok-After (suc f) l h =
    let skipped : Lexer = skip_spaces l in
    let le = skip_from-size l.rest l refl in
    let same = skip_from-extent l.rest l refl in
    let step =
      token_at-After (gettok f) skipped (λ l' lt. gettok-After f l' (omega arith)) skipped.last_char
        refl in
    rw (← same) (
      After-mono (extent skipped) (size skipped) (size l)
        (token_at (gettok f) skipped.last_char skipped) le step)
