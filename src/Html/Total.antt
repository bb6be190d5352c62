-- ===== src/Html/Total.antt =====
-- Parsing ends: the fuel of every loop is enough.
use cpp_custom.Html.Chars.{Token, is_begin_tag, is_char, is_identifier, is_string, is_tok_eof}
use cpp_custom.Html.Lexer.{init_html}
use cpp_custom.Html.Parser.{
  Again, Attributes, Parser, attribute_loop, attribute_rest, attribute_value, attributes_from,
  child_loop, close_dom, content_of, get_next_token, is_end, parse_fuel, parse_html, parse_tag,
  script_name, start_parser, tag_content,
}
use cpp_custom.Html.Progress.{cost, gettok-After, size}
use cpp_custom.Html.Result.{Fine, Fine-bind, Fine-mono, Fine-test, Result, ok, out_of_fuel, ◌>>=◌}
use cpp_custom.Html.Tree.{Dom, Doms, append_dom, dom, insert, new_dom, nil}
use cpp_custom.Prelude.{
  Bool, Bytes, List, Option, arith, codes, equal, false, length, not, suc, true, zero, ℕ, ◌&&◌, ◌+◌,
  ◌<◌, ◌||◌, ◌≡◌, ◌≢◌, ◌≤◌,
}

-- The characters still to be looked at, the current token counted as one.
abbrev pub load : Parser → ℕ
load p = size p.lexer + cost p.cur_tok

pub get_next_token-Fine : (p : Parser) → Fine (λ q. load q ≤ size p.lexer) (get_next_token p)
unfolding get_next_token
get_next_token-Fine p =
    let l = p.lexer in
    let n : ℕ = suc (suc (length l.rest)) in
    let fits : size l < n = ground arith in ground (arith, gettok-After n l fits)

-- An end of the attributes with at most `n` characters to be looked at.
abbrev Stops : ℕ → Attributes → Type 0
Stops n a = load a.parser ≤ n

cost_of_string : (t : Token) → is_string t ≡ true → cost t ≡ 1
cost_of_string t e = ground arith

cost_of_identifier : (t : Token) → is_identifier t ≡ true → cost t ≡ 1
cost_of_identifier t e = ground arith

cost_of_char : (c : ℕ) (t : Token) → is_char c t ≡ true → cost t ≡ 1
cost_of_char c t e = ground arith

module _ (again : Again) (n : ℕ)
    (h : (p : Parser) (attrs : List (Bytes × Bytes)) (start : ℕ)
      → load p < n
      → Fine (Stops (load p)) (again p attrs start)) where
  again-Fine :
      (p : Parser) (attrs : List (Bytes × Bytes)) (start k : ℕ)
      → load p < n
      → load p ≤ k
      → Fine (Stops k) (again p attrs start)
  again-Fine p attrs start k lt le =
      Fine-mono (Stops (load p)) (Stops k) (again p attrs start) (λ a m. omega arith)
        (h p attrs start lt)

  attribute_value-Fine :
      (name : Bytes) (attrs : List (Bytes × Bytes)) (start k : ℕ) (r : Parser)
      → load r ≤ k
      → k ≤ n
      → Fine (Stops k) (attribute_value again name attrs start r)
  unfolding attribute_value
  attribute_value-Fine name attrs start k r le le' =
      Fine-test (Stops k) _ _ (is_string r.cur_tok)
        (λ e.
          Fine-bind (λ s. load s ≤ size r.lexer) (Stops k) (get_next_token r) _
            (get_next_token-Fine r)
            λ s m.
              again-Fine s (insert name r.lexer.str_val attrs) r.lexer.cur_tok_index k
                (omega (arith, cost_of_string r.cur_tok e)) (omega arith))
        (λ e. le)

  attribute_rest-Fine :
      (name : Bytes) (attrs : List (Bytes × Bytes)) (start k : ℕ) (q : Parser)
      → load q ≤ k
      → k < n
      → Fine (Stops k) (attribute_rest again name attrs start q)
  unfolding attribute_rest
  attribute_rest-Fine name attrs start k q le lt =
      Fine-test (Stops k) _ _ (is_char b'=' q.cur_tok)
        (λ e.
          Fine-bind (λ r. load r ≤ size q.lexer) (Stops k) (get_next_token q)
            (attribute_value again name attrs start) (get_next_token-Fine q)
            λ r m. attribute_value-Fine name attrs start k r (omega arith) (omega arith))
        (λ e. again-Fine q (insert name (codes "true") attrs) start k (omega arith) le)

attribute_loop-Fine :
    (f : ℕ) (p : Parser) (attrs : List (Bytes × Bytes)) (start : ℕ)
    → load p < f
    → Fine (Stops (load p)) (attribute_loop f p attrs start)
unfolding attribute_loop
attribute_loop-Fine zero p attrs start h = absurd (omega arith)
attribute_loop-Fine (suc f) p attrs start h =
    let P = Stops (load p) in
    Fine-test P _ _ (is_char b'>' p.cur_tok || is_tok_eof p.cur_tok) (λ e. omega arith)
      λ e.
        Fine-test P _ _ (is_identifier p.cur_tok)
          (λ g.
            Fine-bind (λ q. load q ≤ size p.lexer) P (get_next_token p) _ (get_next_token-Fine p)
              λ q m.
                Fine-mono (Stops (size p.lexer)) P _ (λ a n. omega arith)
                  (attribute_rest-Fine (attribute_loop f) f (attribute_loop-Fine f)
                    p.lexer.identifier_str attrs start (size p.lexer) q m
                    (omega (arith, cost_of_identifier p.cur_tok g))))
          (λ g. omega arith)

module _ (content : Bytes → Doms → Parser → Result (Doms × Parser)) (n : ℕ)
    (h : (parent : Bytes) (doms : Doms) (p : Parser)
      → load p ≤ n
      → Fine (λ r. load r.1 ≤ load p) (content parent doms p)) where
  close_dom-Fine :
      (name : Bytes) (attrs : List (Bytes × Bytes)) (parent : Bytes) (start : ℕ) (doms : Doms)
      (p : Parser) (k : ℕ)
      → load p ≤ k
      → Fine {A = Dom × Parser}
          (λ r. load r.1 ≤ k)
          (close_dom name attrs parent start doms p >>= λ d. ok (d, p))
  unfolding close_dom content_of
  close_dom-Fine name attrs parent start doms p k le = ground arith

  tag_content-Fine :
      (parent : Bytes) (d : Dom) (a : Attributes)
      → load a.parser ≤ n
      → Fine (λ r. load r.1 ≤ load a.parser) (tag_content content parent d a)
  unfolding tag_content
  tag_content-Fine parent (dom name attrs inner children) a le =
      let P : Dom × Parser → Type 0 = λ r. load r.1 ≤ load a.parser in
      Fine-test P _ _ a.failed (λ e. omega arith)
        λ e.
          Fine-bind (λ r. load r ≤ size a.parser.lexer) P (get_next_token a.parser) _
            (get_next_token-Fine a.parser)
            λ r m.
              Fine-bind (λ (doms, s). load s ≤ load r) P (content parent nil r) _
                (h parent nil r (omega arith))
                λ (doms, s) m'.
                  close_dom-Fine name a.attributes parent a.start doms s (load a.parser)
                    (omega arith)

cost_of_begin_tag : (t : Token) (b : Bool) → (is_begin_tag t && b) ≡ true → cost t ≡ 1
cost_of_begin_tag t b e = ground arith

cost_of_is_end : (parent : Bytes) (p : Parser) → is_end parent p ≡ false → cost p.cur_tok ≡ 1
cost_of_is_end parent p e = ground arith

attributes_from-Fine :
    (d : Dom) (start : ℕ) (q : Parser) → Fine (Stops (load q)) (attributes_from d start q)
attributes_from-Fine (dom name attrs inner children) start q =
    attribute_loop-Fine (suc (suc (suc (length q.lexer.rest)))) q attrs start (ground arith)

mutual
  unfolding parse_tag child_loop

  pub parse_tag-Fine :
      (f : ℕ) (parent : Bytes) (d : Dom) (p : Parser)
      → load p + load p < f
      → is_begin_tag p.cur_tok ≡ true
      → Fine (λ r. load r.1 ≤ size p.lexer) (parse_tag f parent d p)
  parse_tag-Fine zero parent d p h e = absurd (omega arith)
  parse_tag-Fine (suc f) parent d p h e =
      let P : Dom × Parser → Type 0 = λ r. load r.1 ≤ size p.lexer in
      let one = cost_of_begin_tag p.cur_tok true (ground arith) in
      Fine-test P _ _ (is_begin_tag p.cur_tok)
        (λ _.
          Fine-bind (λ q. load q ≤ size p.lexer) P (get_next_token p) _ (get_next_token-Fine p)
            λ q m.
              Fine-bind (Stops (load q)) P (attributes_from d p.lexer.cur_tok_index q) _
                (attributes_from-Fine d p.lexer.cur_tok_index q)
                λ a m'.
                  Fine-mono (λ r. load r.1 ≤ load a.parser) P
                    (tag_content (child_loop f) parent d a) (λ r m''. omega arith)
                    (tag_content-Fine (child_loop f) (load a.parser)
                      (λ parent' doms p' le. child_loop-Fine f parent' doms p' (omega arith)) parent
                      d a (omega arith)))
        (λ g. absurd (ground arith))

  child_loop-Fine :
      (f : ℕ) (parent : Bytes) (doms : Doms) (p : Parser)
      → load p + load p + 1 < f
      → Fine (λ r. load r.1 ≤ load p) (child_loop f parent doms p)
  child_loop-Fine zero parent doms p h = absurd (omega arith)
  child_loop-Fine (suc f) parent doms p h =
      let P : Doms × Parser → Type 0 = λ r. load r.1 ≤ load p in
      Fine-test P _ _ (is_end parent p) (λ e. omega arith)
        λ e.
          Fine-test P _ _ (is_begin_tag p.cur_tok && not (equal parent script_name))
            (λ g.
              Fine-bind (λ r. load r.1 ≤ size p.lexer) P
                (parse_tag f p.lexer.tag_str (new_dom p.lexer.tag_str) p) _
                (parse_tag-Fine f p.lexer.tag_str (new_dom p.lexer.tag_str) p (omega arith)
                  (ground arith))
                λ (d, q) m.
                  Fine-bind (λ r. load r ≤ size q.lexer) P (get_next_token q) _
                    (get_next_token-Fine q)
                    λ r m'.
                      Fine-mono (λ x. load x.1 ≤ load r) P
                        (child_loop f parent (append_dom doms d) r) (λ x n. omega arith)
                        (child_loop-Fine f parent (append_dom doms d) r
                          (omega (arith, cost_of_is_end parent p e))))
            (λ g.
              Fine-bind (λ r. load r ≤ size p.lexer) P (get_next_token p) _ (get_next_token-Fine p)
                λ r m'.
                  Fine-mono (λ x. load x.1 ≤ load r) P (child_loop f parent doms r)
                    (λ x n. omega arith)
                    (child_loop-Fine f parent doms r (omega (arith, cost_of_is_end parent p e))))

pub first_token :
    (html : Bytes) (p : Parser) → load p ≤ size (init_html html) → load p + load p < parse_fuel html
first_token html p h = omega arith

-- parseHtml has enough fuel on every text: it returns a tree or a null pointer, throws, or runs
-- for ever in a string that is never closed.
pub parse_html-total : (content : Bytes) → parse_html content ≢ out_of_fuel
unfolding parse_html
parse_html-total content e = rw e at parsed
  where
    P : Option Dom → Type 0
    P _ = Unit

    parsed : Fine P (parse_html content)
    parsed =
        Fine-bind (λ p. load p ≤ size (init_html content)) P (get_next_token (start_parser content))
          _ (get_next_token-Fine (start_parser content))
          λ p m.
            Fine-test P _ _ (is_begin_tag p.cur_tok && equal p.lexer.tag_str (codes "html"))
              (λ g.
                Fine-bind (λ r. load r.1 ≤ size p.lexer) P
                  (parse_tag (parse_fuel content) (codes "html") (new_dom (codes "html")) p) _
                  (parse_tag-Fine (parse_fuel content) (codes "html") (new_dom (codes "html")) p
                    (first_token content p m) (ground arith))
                  λ (d, q) m'.
                    Fine-bind (λ r. load r ≤ size q.lexer) P (get_next_token q) _
                      (get_next_token-Fine q) λ r m''. tt)
              (λ g. tt)
