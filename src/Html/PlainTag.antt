-- ===== src/Html/PlainTag.antt =====
-- parseHtmlToDOM of a text without tags: what it makes of the text.
use cpp_custom.Html.Chars.{
  Token, char_token, chr, eof, is_alnum_byte, is_alpha_byte, is_begin_tag, is_space_byte,
  tok_begin_tag, tok_char, tok_eof,
}
use cpp_custom.Html.Lexer.{
  Lexer, gettok, identifier_from, read_char, skip_from, tag_token, token_at,
}
use cpp_custom.Html.Parser.{
  Parser, attribute_loop, attributes_from, child_loop, close_dom, content_of, get_next_token,
  is_end, parse_fuel, parse_html_to_dom, parse_tag, start_parser, tag_content,
}
use cpp_custom.Html.PlainText.{Ahead, Next, Plain, closing, gettok-Next, read_from-Ahead}
use cpp_custom.Html.Progress.{After, extent, gettok-After, size}
use cpp_custom.Html.Result.{Result, diverges, ok, out_of_fuel, thrown, ◌>>=◌, ◌>>◌}
use cpp_custom.Html.Tree.{Dom, Node, dom, nil, text}
use cpp_custom.Prelude.{
  Bytes, List, [], ap, arith, codes, equal_refl, false, inl, inr, leb, length, length-append, refl,
  suc, take, true, zero, ℕ, ◌++◌, ◌+◌, ◌-◌, ◌<◌, ◌∙◌, ◌∷◌, ◌≡◌, ◌≤◌,
}

pub get_next_token-Next :
    (k : ℕ) (p : Parser)
    → Ahead k p.lexer
    → (q : Parser) × (get_next_token p ≡ ok q)
      × Next k (ok (q.cur_tok, q.lexer))
      × (extent q.lexer ≡ extent p.lexer)
      × (q.html ≡ p.html)
unfolding get_next_token
get_next_token-Next k p h =
    let n : ℕ = length p.lexer.rest in
    let r = gettok (suc (suc n)) p.lexer in
    let (x, e, next, same) =
      token_of k (extent p.lexer) (size p.lexer) r (gettok-Next n k p.lexer h)
        (gettok-After (suc (suc n)) p.lexer (ground arith)) in
    (record p { lexer = x.1; cur_tok = x.0 }, rw e refl, next, same, refl)
  where
    token_of :
        (k e n : ℕ) (r : Result (Token × Lexer))
        → Next k r
        → After e n r
        → (x : Token × Lexer) × (r ≡ ok x) × Next k (ok x) × (extent x.1 ≡ e)
    token_of k e n (ok x) h a = (x, refl, h, a.0)
    token_of k e n diverges h a = absurd h
    token_of k e n thrown h a = absurd h
    token_of k e n out_of_fuel h a = absurd h

abbrev wrapper : Bytes
wrapper = codes "wrapper"

-- The parser is at the end of the document.
record Ended (p q : Parser) : Type 0 where
  rest : q.lexer.rest ≡ []
  last : q.lexer.last_char ≡ eof
  index : extent q.lexer ≡ extent p.lexer
  same_html : q.html ≡ p.html

child_loop-end :
    (f : ℕ) (p : Parser) → is_end wrapper p ≡ true → child_loop (suc f) wrapper nil p ≡ ok (nil, p)
unfolding child_loop
child_loop-end f p e = rw (child_loop, e) refl

child_loop-next :
    (f : ℕ) (p : Parser)
    → is_end wrapper p ≡ false
    → is_begin_tag p.cur_tok ≡ false
    → child_loop (suc f) wrapper nil p ≡ get_next_token p >>= child_loop f wrapper nil
unfolding child_loop
child_loop-next f p e b = rw (child_loop, e, b) refl

child_loop-plain :
    (f n : ℕ) (p : Parser)
    → Next n (ok (p.cur_tok, p.lexer))
    → n < f
    → (q : Parser) × (child_loop f wrapper nil p ≡ ok (nil, q)) × Ended p q
child_loop-plain zero n p h lt = absurd (omega arith)
child_loop-plain (suc f) n p (inr (t, tag, rest, last)) lt =
    let end : is_end wrapper p ≡ true = rw (t, tag) (equal_refl wrapper) in
    (p, child_loop-end f p end, record { rest = rest; last = last; index = refl; same_html = refl })
child_loop-plain (suc f) n p (inl (t, k, lt', h)) lt =
    let (r, e, next, ext, html) = get_next_token-Next k p h in
    let (q, e', ended) = child_loop-plain f k r next (omega arith) in
    let end : is_end wrapper p ≡ false = ground arith in
    let begin : is_begin_tag p.cur_tok ≡ false = ground arith in
    (
      q,
      rw (child_loop-next f p end begin, e, e') refl,
      record {
        rest = ended.rest;
        last = ended.last;
        index = ended.index ∙ ext;
        same_html = ended.same_html ∙ html;
      },
    )

abbrev document : Bytes → Bytes
document w = codes "<wrapper>" ++ (w ++ closing)

-- Behind the name of the first tag ...
abbrev named : Bytes → Parser
named w = record {
  html = document w;
  lexer = record {
    rest = w ++ closing;
    identifier_str = wrapper;
    str_val = [];
    tag_str = wrapper;
    cur_tok_index = 9;
    last_char = chr b'>';
  };
  cur_tok = tok_begin_tag;
}

-- ... and at its end.
abbrev opened : Bytes → Parser
opened w = record (named w) { lexer = read_char (named w).lexer; cur_tok = tok_char b'>' }

first_token : (w : Bytes) → get_next_token (start_parser (document w)) ≡ ok (named w)
unfolding get_next_token gettok skip_from token_at tag_token identifier_from is_alpha_byte
    is_alnum_byte is_space_byte
first_token w = refl

second_token : (w : Bytes) → get_next_token (named w) ≡ ok (opened w)
unfolding get_next_token gettok skip_from token_at is_alpha_byte is_space_byte char_token
second_token w = skip_then (w ++ closing)
  where
    skip_then :
        (r : Bytes)
        → get_next_token (record (named w) { lexer = record (named w).lexer { rest = r } })
          ≡ ok (record (named w) {
            lexer = read_char (record (named w).lexer { rest = r });
            cur_tok = tok_char b'>';
          })
    skip_then [] = refl
    skip_then (c ∷ cs) = refl

last_token :
    (p : Parser)
    → p.lexer.rest ≡ []
    → p.lexer.last_char ≡ eof
    → get_next_token p ≡ ok (record p { cur_tok = tok_eof })
unfolding get_next_token gettok skip_from token_at
last_token p r l =
    let p' : Parser = record p { lexer = record p.lexer { rest = []; last_char = eof } } in
    let same : p ≡ p' = λ i. record p { lexer = record p.lexer { rest = r i; last_char = l i } } in
    rw same refl

no_attributes :
    (d : Dom) (w : Bytes) (name : Bytes) (attrs : List (Bytes × Bytes)) (inner : Bytes) (ch : Node)
    → attributes_from (dom name attrs inner ch) 9 (opened w)
      ≡ ok (record { parser = opened w; attributes = attrs; start = 9; failed = false })
unfolding attribute_loop
no_attributes d w name attrs inner ch = refl

take-all : (u v : Bytes) (k : ℕ) → k ≤ length u → take k (u ++ v) ≡ take k u
take-all u v zero le = refl
take-all [] v (suc k) le = absurd (omega arith)
take-all (c ∷ u) v (suc k) le = ap (λ t. c ∷ t) (take-all u v k (omega arith))

-- The element that a text of `n + 1` characters becomes.
abbrev pub plain_dom : Bytes → List (Bytes × Bytes) → Bytes → Dom
plain_dom name attrs kept = dom name attrs kept (text kept)

module _ (c : ℕ) (u : Bytes) (name : Bytes) (attrs : List (Bytes × Bytes)) where
  abbrev w : Bytes
  w = c ∷ u

  abbrev result : Dom
  result = plain_dom name attrs (take (length u) w)

  close_dom-plain :
      (s : Parser)
      → s.html ≡ document w
      → s.lexer.cur_tok_index ≡ 9 + length (w ++ closing)
      → close_dom name attrs wrapper 9 nil s ≡ ok result
  unfolding close_dom content_of
  close_dom-plain s h i =
      let len : 9 + length (w ++ closing) ≡ 20 + length u =
        ground (arith, length-append w closing) in
      let e : leb 20 (20 + length u) ≡ true = ground arith in
      let diff : (20 + length u) - 20 ≡ length u = omega arith in
      rw (h, i, len, e, diff, take-all w closing (length u) (omega arith)) refl

  tag_content-Plain :
      (f : ℕ) (inner : Bytes) (ch : Node)
      → Plain w
      → length w < f
      → (s : Parser) × (tag_content
            (child_loop f)
            wrapper
            (dom name attrs inner ch)
            (record { parser = opened w; attributes = attrs; start = 9; failed = false })
          ≡ ok (result, s))
        × Ended (opened w) s
  unfolding tag_content
  tag_content-Plain f inner ch p lt =
      let (r, e, next, ext, html) =
        get_next_token-Next (length w) (opened w) (read_from-Ahead w (named w).lexer p) in
      let (s, e', ended) = child_loop-plain f (length w) r next lt in
      let index : s.lexer.cur_tok_index ≡ 9 + length (w ++ closing) =
        ground (arith, ended.index, ended.rest, ext) in
      let closed : close_dom name attrs wrapper 9 nil s ≡ ok result =
        close_dom-plain s (ended.same_html ∙ html) index in
      (
        s,
        rw (e, e', closed) refl,
        record {
          rest = ended.rest;
          last = ended.last;
          index = ended.index ∙ ext;
          same_html = ended.same_html ∙ html;
        },
      )

  parse_tag-Plain :
      (f : ℕ) (inner : Bytes) (ch : Node)
      → Plain w
      → length w < f
      → (s : Parser) × (parse_tag (suc f) wrapper (dom name attrs inner ch) (named w)
          ≡ ok (result, s))
        × Ended (opened w) s
  unfolding parse_tag
  parse_tag-Plain f inner ch p lt =
      let (s, e, ended) = tag_content-Plain f inner ch p lt in
      (
        s,
        rw (second_token w, no_attributes (dom name attrs inner ch) w name attrs inner ch, e) refl,
        ended,
      )

-- parseHtmlToDOM of a text without `<` and `"` of ASCII characters, one at least: the DOM keeps its
-- name and attributes, and its content and inner HTML become the text without its last character.
pub parse_html_to_dom-Plain :
    (c : ℕ) (u name : Bytes) (attrs : List (Bytes × Bytes)) (inner : Bytes) (ch : Node)
    → Plain (c ∷ u)
    → parse_html_to_dom (c ∷ u) (dom name attrs inner ch)
      ≡ ok (plain_dom name attrs (take (length u) (c ∷ u)))
unfolding parse_html_to_dom
parse_html_to_dom-Plain c u name attrs inner ch p =
    let d : Dom = dom name attrs inner ch in
    let n : ℕ = length (document (c ∷ u)) in
    let (s, e, ended) =
      parse_tag-Plain c u name attrs (n + n + 7) inner ch p
        (ground (arith, length-append (c ∷ u) closing)) in
    let fuel : parse_fuel (document (c ∷ u)) ≡ suc (n + n + 7) = omega arith in
    let step : parse_html_to_dom (c ∷ u) d ≡ (
        parse_tag (parse_fuel (document (c ∷ u))) wrapper d (named (c ∷ u)) >>= λ x.
        get_next_token x.1 >> ok x.0) =
      rw (first_token (c ∷ u)) refl in
    step ∙ rw (fuel, e, last_token s ended.rest ended.last) refl
