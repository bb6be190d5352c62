-- ===== src/Page/Examples.antt =====
-- Tests of drawing and of the changes by scripts, and the theorems, at a page of one div.
use cpp_custom.Prelude.{Option, [], ◌∷◌, none, some, ℕ, ◌≡◌, refl, codes, equal}
use cpp_custom.Prelude.Int.{ℤ, pos}
use cpp_custom.Html.Tree.{Dom, Node, insert, dom, cons, nil}
use cpp_custom.Html.Parser.{
  get_next_token, attribute_value, attribute_rest, attribute_loop, content_of, close_dom,
  tag_content, parse_tag, parse_html,
}
use cpp_custom.Html.Lexer.{
  skip_from, identifier_from, string_from, string_token, tag_token, token_at, gettok,
}
use cpp_custom.Html.Chars.{is_space_byte, is_alpha_byte, is_alnum_byte, char_token}
use cpp_custom.Browser.Types.{Div, Divs, div}
use cpp_custom.Browser.Content.{split_line, get_line, read_lines, get_file_content}
use cpp_custom.Page.Types.{◌>>=◌, Document, done}
use cpp_custom.Page.Numbers.{
  after_spaces, digit_of, digits, number, prefixed, magnitude, signed, stoi,
}
use cpp_custom.Page.Store.{find, insert_id, flatten}
use cpp_custom.Page.Draw.{
  get_color, get_num_value, get_str_value, register_id, new_box, dom_to_div, run_script, parse_all,
  parse_content, parse_dom, draw_children, draw_content, draw_root,
}
use cpp_custom.Page.Script.{store_content}
use cpp_custom.Page.Load.{contains, content_at, load_content, load_uri}
use cpp_custom.Page.Outcome.{Ends}
use cpp_custom.Page.Valid.{Valid}
use cpp_custom.Page.Sample.{simple, engine, start, first_div, sample}

-- What the parser makes of the new content.
abbrev new_div : Dom
new_div = dom (codes "div") first_div.attributes (codes "<b id=\"b\">new</b") (
    Node.nodes (
      cons (dom (codes "b") ((codes "id", codes "b") ∷ []) (codes "new") (Node.text (codes "new")))
        nil))

abbrev changed : Document simple
changed = store_content 1 first_div sample new_div

-- The divs that a page from a file is drawn as: the font is larger than its attribute says.
abbrev drawn_sizes : Option (Div simple) → Option (ℕ × ℤ)
drawn_sizes none = none
drawn_sizes (some (div b Divs.nil)) = none
drawn_sizes (some (div b (Divs.cons (div c ds) es))) = some (c.width, c.font_size)

load_page :
    (load_uri engine (codes "file://p.html") start >>= λ d. done (drawn_sizes d.page.root))
    ≡ done (some (20, pos 24))
unfolding load_uri content_at contains get_file_content read_lines get_line split_line load_content
    parse_html get_next_token gettok skip_from token_at tag_token identifier_from string_token
    string_from is_space_byte is_alpha_byte is_alnum_byte char_token parse_tag attribute_loop
    attribute_rest attribute_value tag_content close_dom content_of insert equal flatten draw_root
    dom_to_div new_box get_num_value find stoi signed magnitude prefixed number digits digit_of
    after_spaces get_str_value get_color parse_dom parse_content parse_all draw_content
    draw_children run_script register_id insert_id
load_page = refl
