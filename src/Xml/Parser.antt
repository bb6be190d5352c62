-- ===== src/Xml/Parser.antt =====
-- parseXml and main of the XML parser.
use cpp_custom.Html.Result.{Result, ok, out_of_fuel, ◌>>=◌, ◌>>◌}
use cpp_custom.Prelude.{
  Bool, Bytes, Option, [], codes, equal, false, length, none, some, suc, true, zero, ℕ, ◌&&◌, ◌++◌,
  ◌+◌, ◌||◌, ◌∷◌,
}
use cpp_custom.Xml.Lexer.{
  Lexer, Token, gettok, init_xml, tok_begin_tag, tok_char, tok_close_tag, tok_eof, tok_identifier,
}

mutual
  pub data Node : Type 0 where
    text : Bytes → Node
    nodes : Pairs → Node

  pub data Pairs : Type 0 where
    nil : Pairs
    cons : Bytes → Node → Pairs → Pairs

pub record Parser : Type 0 where
  pub lexer : Lexer
  pub cur_tok : Token

unfoldable pub get_next_token : Parser → Result Parser
get_next_token p = do
  (t, l) ← gettok (suc (suc (length p.lexer.rest))) p.lexer
  ok (record { lexer = l; cur_tok = t })

abbrev pub is_eof : Token → Bool
is_eof tok_eof = true
is_eof _ = false

abbrev pub is_begin : Token → Bool
is_begin tok_begin_tag = true
is_begin _ = false

abbrev pub is_close : Token → Bool
is_close tok_close_tag = true
is_close _ = false

-- The end of the loop over the content.
abbrev pub is_end : Bytes → Parser → Bool
is_end parent p = is_eof p.cur_tok || (is_close p.cur_tok && equal p.lexer.tag_str parent)

abbrev pub push_back : Pairs → Bytes → Node → Pairs
push_back nil k n = cons k n nil
push_back (cons j m ps) k n = cons j m (push_back ps k n)

-- The text, if there is no tag inside.
abbrev pub slot_of : Bytes → Pairs → Node
slot_of str nil = text str
slot_of str (cons k n ps) = nodes (cons k n ps)

abbrev spaced : Bytes → Bytes
spaced [] = []
spaced (c ∷ cs) = (c ∷ cs) ++ b' ' ∷ []

-- Words are put together with one space, other characters as they are.
abbrev pub add_text : Bytes → Parser → Bytes
add_text str p = text_of p.cur_tok
  where
    text_of : Token → Bytes
    text_of tok_identifier = spaced str ++ p.lexer.identifier_str
    text_of (tok_char c) = str ++ c ∷ []
    text_of _ = str

unfoldable mutual
  pub parse_xml : ℕ → Bytes → Parser → Result (Node × Parser)
  parse_xml zero parent p = out_of_fuel
  parse_xml (suc f) parent p = get_next_token p >>= content_loop f parent [] nil

  -- The loop over the content, with the text and the tags so far.
  pub content_loop : ℕ → Bytes → Bytes → Pairs → Parser → Result (Node × Parser)
  content_loop zero parent str child p = out_of_fuel
  content_loop (suc f) parent str child p = elim (is_end parent p) [
    | true ↦ ok (slot_of str child, p)
    | false ↦ elim (is_begin p.cur_tok) [
      | true ↦ (do
        (node, q) ← parse_xml f p.lexer.tag_str p
        content_loop f parent str (push_back child q.lexer.tag_str node) q)
      | false ↦ elim (is_close p.cur_tok) [
        | true ↦ get_next_token p >>= content_loop f parent str child
        | false ↦ get_next_token p >>= content_loop f parent (add_text str p) child
      ]
    ]
  ]

-- Two for each character, for a call of parseXml and a turn of its loop.
abbrev pub parse_fuel : Bytes → ℕ
parse_fuel input = length input + length input + 8

-- The root that main prints, or `none` where it finds no root.
unfoldable pub parse_input : Bytes → Result (Option Node)
parse_input input = do
  p ← get_next_token (record { lexer = init_xml input; cur_tok = tok_eof })
  elim (is_begin p.cur_tok && equal p.lexer.tag_str (codes "xml")) [
    | false ↦ ok none
    | true ↦ (do
      (root, q) ← parse_xml (parse_fuel input) (codes "xml") p
      get_next_token q
      ok (some root))
  ]
