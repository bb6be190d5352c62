-- ===== src/Html/Parser.antt =====
-- parseTag, parseHtml and parseHtmlToDOM.
use cpp_custom.Html.Chars.{
  Token, is_begin_tag, is_char, is_close_tag, is_identifier, is_string, is_tok_eof, tok_eof,
}
use cpp_custom.Html.Lexer.{Lexer, gettok, init_html}
use cpp_custom.Html.Result.{Result, ok, out_of_fuel, thrown, ◌>>=◌, ◌>>◌}
use cpp_custom.Html.Tree.{Dom, Doms, Node, append_dom, cons, dom, insert, new_dom, nil, nodes, text}
use cpp_custom.Prelude.{
  Bool, Bytes, List, Option, codes, drop, equal, false, if◌then◌else◌, leb, length, none, not, some,
  suc, take, true, zero, ℕ, ◌&&◌, ◌++◌, ◌+◌, ◌-◌, ◌||◌,
}

-- `html`, the lexer and `CurTok`.
pub record Parser : Type 0 where
  pub html : Bytes
  pub lexer : Lexer
  pub cur_tok : Token

-- The fuel of gettok: more than the characters still to be looked at.
unfoldable pub get_next_token : Parser → Result Parser
get_next_token p = do
  (t, l) ← gettok (suc (suc (length p.lexer.rest))) p.lexer
  ok (record p { lexer = l; cur_tok = t })

-- The attributes so far, where the content starts, and whether parseTag returned on an error.
pub record Attributes : Type 0 where
  pub parser : Parser
  pub attributes : List (Bytes × Bytes)
  pub start : ℕ
  pub failed : Bool

abbrev attributes_of : Parser → List (Bytes × Bytes) → ℕ → Bool → Attributes
attributes_of p attrs start failed = record {
  parser = p;
  attributes = attrs;
  start = start;
  failed = failed;
}

abbrev pub Again : Type 0
Again = Parser → List (Bytes × Bytes) → ℕ → Result Attributes

-- Behind the `=` of an attribute; `again` goes on with the loop.
unfoldable pub attribute_value :
    Again → Bytes → List (Bytes × Bytes) → ℕ → Parser → Result Attributes
attribute_value again name attrs start r = elim (is_string r.cur_tok) [
  | false ↦ ok (attributes_of r attrs start true)
  | true ↦ (do
    s ← get_next_token r
    again s (insert name r.lexer.str_val attrs) r.lexer.cur_tok_index)
]

-- Behind the name of an attribute.
unfoldable pub attribute_rest :
    Again → Bytes → List (Bytes × Bytes) → ℕ → Parser → Result Attributes
attribute_rest again name attrs start q = elim (is_char b'=' q.cur_tok) [
  | false ↦ again q (insert name (codes "true") attrs) start
  | true ↦ get_next_token q >>= attribute_value again name attrs start
]

-- The loop over the attributes.
unfoldable pub attribute_loop : ℕ → Parser → List (Bytes × Bytes) → ℕ → Result Attributes
attribute_loop zero p attrs start = out_of_fuel
attribute_loop (suc f) p attrs start = elim (is_char b'>' p.cur_tok || is_tok_eof p.cur_tok) [
  | true ↦ ok (attributes_of p attrs start (not (is_char b'>' p.cur_tok)))
  | false ↦ elim (is_identifier p.cur_tok) [
    | false ↦ ok (attributes_of p attrs start true)
    | true ↦
        get_next_token p >>= attribute_rest (attribute_loop f) p.lexer.identifier_str attrs start
  ]
]

-- `string(&html[start], end - start)` with `end = curTokIndex - parentName.length() - 4`; a negative
-- length makes the constructor throw.
unfoldable pub content_of : Bytes → ℕ → Parser → Result Bytes
content_of parent start p =
    if leb (start + length parent + 4) p.lexer.cur_tok_index
    then ok (take (p.lexer.cur_tok_index - (start + length parent + 4)) (drop start p.html))
    else thrown

-- The end of the loop over the content.
abbrev pub is_end : Bytes → Parser → Bool
is_end parent p = is_tok_eof p.cur_tok || (is_close_tag p.cur_tok && equal p.lexer.tag_str parent)

-- The children, or the text where there are none.
abbrev pub node_of : Doms → Bytes → Node
node_of nil content = text content
node_of (cons c cs) content = nodes (cons c cs)

unfoldable pub close_dom : Bytes → List (Bytes × Bytes) → Bytes → ℕ → Doms → Parser → Result Dom
close_dom name attrs parent start children p = do
  content ← content_of parent start p
  ok (dom name attrs content (node_of children content))

abbrev pub script_name : Bytes
script_name = codes "script"

-- parseTag behind its loop over the attributes; `content` is its loop over the content.
unfoldable pub tag_content :
    (Bytes → Doms → Parser → Result (Doms × Parser))
    → Bytes
    → Dom
    → Attributes
    → Result (Dom × Parser)
tag_content content parent (dom name attrs inner children) a = elim a.failed [
  | true ↦ ok (dom name a.attributes inner children, a.parser)
  | false ↦ (do
    r ← get_next_token a.parser
    (doms, s) ← content parent nil r
    d ← close_dom name a.attributes parent a.start doms s
    ok (d, s))
]

abbrev pub attributes_from : Dom → ℕ → Parser → Result Attributes
attributes_from (dom name attrs inner children) start q =
    attribute_loop (suc (suc (suc (length q.lexer.rest)))) q attrs start

-- parseTag and its loop over the content, which call each other.
unfoldable mutual
  pub parse_tag : ℕ → Bytes → Dom → Parser → Result (Dom × Parser)
  parse_tag zero parent d p = out_of_fuel
  parse_tag (suc f) parent d p = elim (is_begin_tag p.cur_tok) [
    | false ↦ ok (d, p)
    | true ↦ (do
      q ← get_next_token p
      a ← attributes_from d p.lexer.cur_tok_index q
      tag_content (child_loop f) parent d a)
  ]

  pub child_loop : ℕ → Bytes → Doms → Parser → Result (Doms × Parser)
  child_loop zero parent doms p = out_of_fuel
  child_loop (suc f) parent doms p = elim (is_end parent p) [
    | true ↦ ok (doms, p)
    | false ↦ elim (is_begin_tag p.cur_tok && not (equal parent script_name)) [
      | false ↦ get_next_token p >>= child_loop f parent doms
      | true ↦ (do
        (d, q) ← parse_tag f p.lexer.tag_str (new_dom p.lexer.tag_str) p
        r ← get_next_token q
        child_loop f parent (append_dom doms d) r)
    ]
  ]

abbrev pub start_parser : Bytes → Parser
start_parser html = record { html = html; lexer = init_html html; cur_tok = tok_eof }

-- Two for each character, for a call of parseTag and a turn of its loop.
abbrev pub parse_fuel : Bytes → ℕ
parse_fuel html = length html + length html + 8

unfoldable pub parse_html_to_dom : Bytes → Dom → Result Dom
parse_html_to_dom content d = do
  let html = codes "<wrapper>" ++ (content ++ codes "</wrapper>")
  p ← get_next_token (start_parser html)
  (d', q) ← parse_tag (parse_fuel html) (codes "wrapper") d p
  get_next_token q
  ok d'

-- `none` is the null pointer.
unfoldable pub parse_html : Bytes → Result (Option Dom)
parse_html content = do
  p ← get_next_token (start_parser content)
  elim (is_begin_tag p.cur_tok && equal p.lexer.tag_str (codes "html")) [
    | false ↦ ok none
    | true ↦ (do
      (d, q) ← parse_tag (parse_fuel content) (codes "html") (new_dom (codes "html")) p
      get_next_token q
      ok (some d))
  ]
