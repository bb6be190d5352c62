-- ===== src/Xml/Total.antt =====
-- The XML parser ends on every input.
use cpp_custom.Html.Chars.{Char, chr, eof}
use cpp_custom.Html.Result.{Fine, Fine-bind, Fine-mono, Fine-test, Result, out_of_fuel, ◌>>=◌}
use cpp_custom.Prelude.{
  Bool, Bytes, Option, [], arith, codes, equal, false, if◌then◌else◌, length, refl, suc, true, zero,
  ℕ, ◌&&◌, ◌+◌, ◌<◌, ◌∷◌, ◌≡◌, ◌≢◌, ◌≤◌,
}
use cpp_custom.Xml.Lexer.{
  Lexer, Token, gettok, identifier_from, init_xml, is_slash, open_tag, push_identifier, read_char,
  read_from, skip_from, tag_token, token_at, tok_eof,
}
use cpp_custom.Xml.Parser.{
  Node, Pairs, Parser, add_text, content_loop, get_next_token, is_begin, is_close, is_end, is_eof,
  nil, parse_fuel, parse_input, parse_xml, push_back,
}

abbrev pending : Char → ℕ
pending eof = 0
pending (chr c) = 1

-- The characters that are still to be looked at.
abbrev pub size : Lexer → ℕ
size l = length l.rest + pending l.last_char

read_from-size : (xs : Bytes) (l : Lexer) → size (read_from xs l) ≤ length xs
read_from-size [] l = omega arith
read_from-size (c ∷ cs) l = omega arith

skip_from-size : (xs : Bytes) (l : Lexer) → l.rest ≡ xs → size (skip_from xs l) ≤ size l
unfolding skip_from
skip_from-size [] l e = ground arith
skip_from-size (c ∷ cs) l e = ground (arith, skip_from-size cs (read_from (c ∷ cs) l))

identifier_from-size : (xs : Bytes) (l : Lexer) → size (identifier_from xs l) ≤ length xs
unfolding identifier_from
identifier_from-size [] l = omega arith
identifier_from-size (c ∷ cs) l =
    ground (arith, identifier_from-size cs (push_identifier c (read_from (c ∷ cs) l)))

open_tag-size : (l : Lexer) → size (open_tag l) ≤ length l.rest
open_tag-size l =
    let opened = read_char l in
    ground (arith, read_from-size l.rest l, read_from-size opened.rest opened)

-- A token that is not the end costs a character.
abbrev pub cost : Token → ℕ
cost t = if is_eof t then 0 else 1

abbrev Within : ℕ → Token × Lexer → Type 0
Within n (t, l) = size l + cost t ≤ n

tag_token-Fine :
    (n : ℕ) (end : Bool) (r : Token × Lexer) → Within n r → Fine (Within n) (tag_token end r)
unfolding tag_token
tag_token-Fine n end (t, l) h =
    ground (arith, read_from-size l.rest (record l { tag_str = l.identifier_str }))

module _ (again : Lexer → Result (Token × Lexer)) (l : Lexer)
    (h : (l' : Lexer) → size l' < size l → Fine (Within (size l')) (again l')) where
  token_at-Fine : (c : Char) → l.last_char ≡ c → Fine (Within (size l)) (token_at again c l)
  unfolding token_at
  token_at-Fine eof e = omega arith
  token_at-Fine (chr c) e =
      let end : Bool = is_slash (read_char l).last_char in
      let fewer : size (open_tag l) < size l = ground (arith, open_tag-size l) in
      let tag : Fine (Within (size l)) (again (open_tag l) >>= tag_token end) =
        Fine-bind (Within (size (open_tag l))) (Within (size l)) (again (open_tag l)) _
          (h (open_tag l) fewer) λ r m. tag_token-Fine (size l) end r (omega arith) in
      ground (
        arith,
        tag,
        read_from-size l.rest l,
        identifier_from-size l.rest (record l { identifier_str = c ∷ [] }),
      )

gettok-Fine : (f : ℕ) (l : Lexer) → size l < f → Fine (Within (size l)) (gettok f l)
unfolding gettok
gettok-Fine zero l h = absurd (omega arith)
gettok-Fine (suc f) l h =
    let l' : Lexer = skip_from l.rest l in
    let le = skip_from-size l.rest l refl in
    Fine-mono (Within (size l')) (Within (size l)) _ (λ r m. omega arith)
      (token_at-Fine (gettok f) l' (λ k lt. gettok-Fine f k (omega arith)) l'.last_char refl)

-- The characters still to be looked at, the current token counted as one.
abbrev pub load : Parser → ℕ
load p = size p.lexer + cost p.cur_tok

get_next_token-Fine : (p : Parser) → Fine (λ q. load q ≤ size p.lexer) (get_next_token p)
unfolding get_next_token
get_next_token-Fine p =
    let n : ℕ = suc (suc (length p.lexer.rest)) in
    let fits : size p.lexer < n = ground arith in
    Fine-bind (Within (size p.lexer)) (λ q. load q ≤ size p.lexer) (gettok n p.lexer) _
      (gettok-Fine n p.lexer fits) λ (t, l) m. m

cost_of_begin : (t : Token) → is_begin t ≡ true → cost t ≡ 1
cost_of_begin t e = ground arith

cost_of_is_end : (parent : Bytes) (p : Parser) → is_end parent p ≡ false → cost p.cur_tok ≡ 1
cost_of_is_end parent p e = ground arith

abbrev Left : ℕ → Node × Parser → Type 0
Left n (node, q) = load q ≤ n

mutual
  unfolding parse_xml content_loop

  parse_xml-Fine :
      (f : ℕ) (parent : Bytes) (p : Parser)
      → size p.lexer + size p.lexer + 1 < f
      → Fine (Left (size p.lexer)) (parse_xml f parent p)
  parse_xml-Fine zero parent p h = absurd (omega arith)
  parse_xml-Fine (suc f) parent p h =
      let P = Left (size p.lexer) in
      Fine-bind (λ q. load q ≤ size p.lexer) P (get_next_token p) _ (get_next_token-Fine p)
        λ q m.
          Fine-mono (Left (load q)) P _ (λ r n. omega arith)
            (content_loop-Fine f parent [] nil q (omega arith))

  content_loop-Fine :
      (f : ℕ) (parent str : Bytes) (child : Pairs) (p : Parser)
      → load p + load p < f
      → Fine (Left (load p)) (content_loop f parent str child p)
  content_loop-Fine zero parent str child p h = absurd (omega arith)
  content_loop-Fine (suc f) parent str child p h =
      let P = Left (load p) in
      let next : (s : Bytes)
          → cost p.cur_tok ≡ 1
          → Fine P (get_next_token p >>= content_loop f parent s child) =
        λ s one.
          Fine-bind (λ q. load q ≤ size p.lexer) P (get_next_token p) _ (get_next_token-Fine p)
            λ q m.
              Fine-mono (Left (load q)) P _ (λ r n. omega arith)
                (content_loop-Fine f parent s child q (omega arith)) in
      Fine-test P _ _ (is_end parent p) (λ e. omega arith)
        λ e.
          let one = cost_of_is_end parent p e in
          Fine-test P _ _ (is_begin p.cur_tok)
            (λ g.
              Fine-bind (Left (size p.lexer)) P (parse_xml f p.lexer.tag_str p) _
                (parse_xml-Fine f p.lexer.tag_str p (omega arith))
                λ (node, q) m.
                  Fine-mono (Left (load q)) P _ (λ r n. omega arith)
                    (content_loop-Fine f parent str (push_back child q.lexer.tag_str node) q
                      (omega arith)))
            (λ g.
              Fine-test P _ _ (is_close p.cur_tok) (λ c. next str one)
                (λ c. next (add_text str p) one))

-- The XML parser has enough fuel on every input: main finds a root or none, or gettok throws.
pub parse_input-total : (input : Bytes) → parse_input input ≢ out_of_fuel
unfolding parse_input
parse_input-total input e = rw e at parsed
  where
    P : Option Node → Type 0
    P _ = Unit

    first : Parser
    first = record { lexer = init_xml input; cur_tok = tok_eof }

    parsed : Fine P (parse_input input)
    parsed =
        Fine-bind (λ p. load p ≤ size (init_xml input)) P (get_next_token first) _
          (get_next_token-Fine first)
          λ p m.
            Fine-test P _ _ (is_begin p.cur_tok && equal p.lexer.tag_str (codes "xml"))
              (λ g.
                Fine-bind (Left (size p.lexer)) P (parse_xml (parse_fuel input) (codes "xml") p) _
                  (parse_xml-Fine (parse_fuel input) (codes "xml") p (omega arith))
                  λ (node, q) m'.
                    Fine-bind (λ r. load r ≤ size q.lexer) P (get_next_token q) _
                      (get_next_token-Fine q) λ r m''. tt)
              (λ g. tt)
