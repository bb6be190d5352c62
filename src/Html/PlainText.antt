-- ===== src/Html/PlainText.antt =====
-- parseHtmlToDOM of a text without tags: the loop over the content reaches the closing tag.
use cpp_custom.Html.Chars.{
  Token, char_token, chr, eof, is_alnum_byte, is_alpha_byte, is_begin_tag, is_close_tag, is_space,
  is_space_byte, is_tok_eof, tok_char, tok_close_tag,
}
use cpp_custom.Html.Lexer.{
  Lexer, gettok, identifier_from, push_identifier, read_from, skip_from, skip_spaces, tag_token,
  token_at,
}
use cpp_custom.Html.Result.{Result, diverges, ok, out_of_fuel, thrown}
use cpp_custom.Prelude.{
  Bool, Bool-cases, Bytes, [], ap, arith, codes, false, inl, inr, length, ltb, not, refl, suc, sym,
  true, ℕ, ◌&&◌, ◌++◌, ◌<◌, ◌==◌, ◌||◌, ◌∙◌, ◌∷◌, ◌≡◌, ◌≤◌, ◌⊎◌,
}

-- No bracket, no quote, and only ASCII.
unfoldable pub is_plain : ℕ → Bool
is_plain c = not (c == b'<') && not (c == b'"') && ltb c 128

abbrev pub Plain : Bytes → Type 0
Plain [] = Unit {0}
Plain (c ∷ cs) = (is_plain c ≡ true) × Plain cs

-- The end of the document that parseHtmlToDOM builds.
abbrev pub closing : Bytes
closing = codes "</wrapper>"

-- The text still to be looked at is `c ∷ cs`.
abbrev pub At : Lexer → Bytes → Type 0
At l [] = ⊥
At l (c ∷ cs) = (l.last_char ≡ chr c) × (l.rest ≡ cs)

-- A plain text of at most `n` characters and the closing tag are still to be looked at.
pub record Ahead (n : ℕ) (l : Lexer) : Type 0 where
  pub left : Bytes
  pub plain : Plain left
  pub at : At l (left ++ closing)
  pub short : length left ≤ n

pub read_from-Ahead :
    (u : Bytes) (l : Lexer) → Plain u → Ahead (length u) (read_from (u ++ closing) l)
read_from-Ahead [] l h = record { left = []; plain = tt; at = (refl, refl); short = omega arith }
read_from-Ahead (c ∷ cs) l h = record {
  left = c ∷ cs;
  plain = h;
  at = (unfold is_plain in ground arith, refl);
  short = omega arith;
}

Ahead-mono : (n k : ℕ) {l : Lexer} → n ≤ k → Ahead n l → Ahead k l
Ahead-mono n k le h = record {
  left = h.left;
  plain = h.plain;
  at = h.at;
  short = omega (arith, h.short);
}

identifier_from-Ahead :
    (u : Bytes) (l : Lexer) → Plain u → Ahead (length u) (identifier_from (u ++ closing) l)
unfolding identifier_from is_alnum_byte
identifier_from-Ahead [] l h = read_from-Ahead [] l tt
identifier_from-Ahead (c ∷ cs) l h = elim (Bool-cases (is_alnum_byte c)) [
  | inl e ↦ rw e (
      Ahead-mono (length cs) (suc (length cs)) (omega arith)
        (identifier_from-Ahead cs (push_identifier c (read_from ((c ∷ cs) ++ closing) l)) h.1))
  | inr e ↦ rw e (read_from-Ahead (c ∷ cs) l h)
]

-- As `Ahead`, with no white space at hand.
record Ready (n : ℕ) (l : Lexer) : Type 0 where
  ahead : Ahead n l
  solid : is_space l.last_char ≡ false

skip_from_stay : (xs : Bytes) (l : Lexer) → is_space l.last_char ≡ false → skip_from xs l ≡ l
unfolding skip_from
skip_from_stay [] l e = rw e
skip_from_stay (c ∷ cs) l e = rw e

skip_from_go :
    (d : ℕ) (ds : Bytes) (l : Lexer)
    → is_space l.last_char ≡ true
    → skip_from (d ∷ ds) l ≡ skip_from ds (read_from (d ∷ ds) l)
unfolding skip_from
skip_from_go d ds l e = rw e

bracket_solid : is_space (chr b'<') ≡ false
unfolding is_space_byte
bracket_solid = refl

skip_from-Ready :
    (u : Bytes) (c : ℕ) (l : Lexer)
    → l.last_char ≡ chr c
    → l.rest ≡ u ++ closing
    → is_plain c ≡ true
    → Plain u
    → Ready (suc (length u)) (skip_from (u ++ closing) l)
skip_from-Ready [] c l e r p h = elim (Bool-cases (is_space l.last_char)) [
  | inr solid ↦ rw (skip_from_stay closing l solid) (record {
    ahead = record { left = c ∷ []; plain = (p, tt); at = (e, r); short = omega arith };
    solid = solid;
  })
  | inl white ↦
      let l' = read_from closing l in
      rw
        (
          skip_from_go b'<' (codes "/wrapper>") l white,
          skip_from_stay (codes "/wrapper>") l' bracket_solid,
        )
        (record {
          ahead = record { left = []; plain = tt; at = (refl, refl); short = omega arith };
          solid = bracket_solid;
        })
]
skip_from-Ready (d ∷ ds) c l e r p h = elim (Bool-cases (is_space l.last_char)) [
  | inr solid ↦ rw (skip_from_stay ((d ∷ ds) ++ closing) l solid) (record {
    ahead = record { left = c ∷ d ∷ ds; plain = (p, h); at = (e, r); short = omega arith };
    solid = solid;
  })
  | inl white ↦
      let l' = read_from ((d ∷ ds) ++ closing) l in
      let next = skip_from-Ready ds d l' (unfold is_plain in ground (arith, h.0)) refl h.0 h.1 in
      rw (skip_from_go d (ds ++ closing) l white) (record {
        ahead = Ahead-mono (suc (length ds)) (suc (suc (length ds))) (omega arith) next.ahead;
        solid = next.solid;
      })
]

-- The closing tag.
close_token :
    (f : ℕ) (l : Lexer)
    → l.last_char ≡ chr b'<'
    → l.rest ≡ codes "/wrapper>"
    → (l' : Lexer) × (gettok (suc (suc f)) l ≡ ok (tok_close_tag, l'))
      × (l'.tag_str ≡ codes "wrapper")
      × (l'.rest ≡ [])
      × (l'.last_char ≡ eof)
unfolding gettok skip_from token_at tag_token identifier_from is_alpha_byte is_alnum_byte
    is_space_byte
close_token f l e r =
    let l' : Lexer = record l { last_char = chr b'<'; rest = codes "/wrapper>" } in
    let same : l ≡ l' = λ i. record l { last_char = e i; rest = r i } in
    rw same (_, refl, refl, refl, refl)

-- The next token: one of the text, with less of it ahead, or the closing tag with nothing behind.
abbrev pub Next : ℕ → Result (Token × Lexer) → Type 0
Next n (ok (t, l)) =
    ((is_begin_tag t || is_tok_eof t || is_close_tag t ≡ false) × (k : ℕ) × (k < n) × Ahead k l)
    ⊎ ((t ≡ tok_close_tag) × (l.tag_str ≡ codes "wrapper") × (l.rest ≡ []) × (l.last_char ≡ eof))
Next n diverges = ⊥
Next n thrown = ⊥
Next n out_of_fuel = ⊥

module _ (again : Lexer → Result (Token × Lexer)) (c : ℕ) (u : Bytes) (l₀ : Lexer)
    (p : is_plain c ≡ true) (h : Plain u) where
  abbrev here : Lexer
  here = record l₀ { rest = u ++ closing; last_char = chr c }

  text_token : Next (suc (length u)) (token_at again (chr c) here)
  unfolding token_at is_plain char_token
  text_token = elim (Bool-cases (is_alpha_byte c)) [
    | inl letter ↦ rw letter (
        inl (
          refl,
          length u,
          omega arith,
          identifier_from-Ahead u (record here { identifier_str = c ∷ [] }) h,
        ))
    | inr other ↦
        let quote : (c == b'"') ≡ false = ground arith in
        let bracket : (c == b'<') ≡ false = ground arith in
        let t : char_token c ≡ tok_char c = ground arith in
        rw (other, quote, bracket, t) (inl (refl, length u, omega arith, read_from-Ahead u here h))
  ]

Next-mono : (n k : ℕ) (r : Result (Token × Lexer)) → n ≤ k → Next n r → Next k r
Next-mono n k (ok _) le (inl (t, j, lt, h)) = inl (t, j, omega arith, h)
Next-mono n k (ok _) le (inr h) = inr h
Next-mono n k diverges le h = absurd h
Next-mono n k thrown le h = absurd h
Next-mono n k out_of_fuel le h = absurd h

solid-text :
    (f c : ℕ) (u : Bytes) (l : Lexer)
    → is_plain c ≡ true
    → Plain u
    → is_space (chr c) ≡ false
    → Next
        (suc (length u))
        (gettok (suc (suc f)) (record l { rest = u ++ closing; last_char = chr c }))
unfolding gettok
solid-text f c u l p h s =
    rw (skip_from_stay (u ++ closing) (record l { rest = u ++ closing; last_char = chr c }) s)
      (text_token (gettok (suc f)) c u l p h)

solid-Next :
    (f n : ℕ) (l : Lexer) (left : Bytes)
    → Plain left
    → At l (left ++ closing)
    → length left ≤ n
    → is_space l.last_char ≡ false
    → Next n (gettok (suc (suc f)) l)
solid-Next f n l [] p at le solid =
    let (l', e, tag, rest, end) = close_token f l at.0 at.1 in rw e (inr (refl, tag, rest, end))
solid-Next f n l (c ∷ u) p at le solid =
    let l' : Lexer = record l { rest = u ++ closing; last_char = chr c } in
    let same : l ≡ l' = λ i. record l { rest = at.1 i; last_char = at.0 i } in
    let solid' : is_space l'.last_char ≡ false = ap is_space (sym at.0) ∙ solid in
    rw same (
      Next-mono (suc (length u)) n (gettok (suc (suc f)) l') (omega arith)
        (solid-text f c u l p.0 p.1 solid'))

gettok-skip :
    (f : ℕ) (l : Lexer)
    → is_space (skip_spaces l).last_char ≡ false
    → gettok (suc f) (skip_spaces l) ≡ gettok (suc f) l
unfolding gettok
gettok-skip f l solid = rw (skip_from_stay (skip_spaces l).rest (skip_spaces l) solid) refl

left-Next :
    (f n : ℕ) (l : Lexer) (left : Bytes)
    → Plain left
    → At l (left ++ closing)
    → length left ≤ n
    → Next n (gettok (suc (suc f)) l)
left-Next f n l [] p at le = solid-Next f n l [] p at le (rw at.0 bracket_solid)
left-Next f n l (c ∷ u) p at le =
    let e : skip_spaces l ≡ skip_from (u ++ closing) l = ap (λ r. skip_from r l) at.1 in
    let ready : Ready (suc (length u)) (skip_spaces l) =
      rw e (skip_from-Ready u c l at.0 at.1 p.0 p.1) in
    rw (← gettok-skip (suc f) l ready.solid) (
      solid-Next f n (skip_spaces l) ready.ahead.left ready.ahead.plain ready.ahead.at
        (omega (arith, ready.ahead.short)) ready.solid)

pub gettok-Next : (f n : ℕ) (l : Lexer) → Ahead n l → Next n (gettok (suc (suc f)) l)
gettok-Next f n l h = left-Next f n l h.left h.plain h.at h.short
