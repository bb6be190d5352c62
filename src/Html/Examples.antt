-- ===== src/Html/Examples.antt =====
-- Tests of the HTML parser, and its theorems at concrete inputs.
use cpp_custom.Prelude.{Bytes, [], codes, equal, refl, some, ◌∷◌, ◌≡◌, ◌≢◌}
use cpp_custom.Html.Chars.{char_token, is_alnum_byte, is_alpha_byte, is_space_byte}
use cpp_custom.Html.Lexer.{
  gettok, identifier_from, skip_from, string_from, string_token, tag_token, token_at,
}
use cpp_custom.Html.PlainText.{Plain, is_plain}
use cpp_custom.Html.PlainTag.{parse_html_to_dom-Plain, plain_dom}
use cpp_custom.Html.Parser.{
  parse_html_to_dom, attribute_loop, attribute_rest, attribute_value, close_dom, content_of,
  get_next_token, parse_html, parse_tag, tag_content,
}
use cpp_custom.Html.Result.{ok, out_of_fuel, thrown}
use cpp_custom.Html.Total.{parse_html-total}
use cpp_custom.Html.Tree.{cons, dom, insert, new_dom, nil, nodes, text, unset}

abbrev document : Bytes
document = codes "<html><a b=\"c\">xyz</a></html>"

-- A tree of two elements: the content of the outer one lacks its last character.
parse_html-document :
    parse_html document
    ≡ ok (
        some (
          dom (codes "html") [] (codes "<a b=\"c\">xyz</a") (
            nodes (
              cons
                (dom (codes "a") ((codes "b", codes "c") ∷ []) (codes "xyz") (text (codes "xyz")))
                nil))))
unfolding parse_html get_next_token gettok skip_from token_at tag_token identifier_from string_token
    string_from is_space_byte is_alpha_byte is_alnum_byte char_token parse_tag attribute_loop
    attribute_rest attribute_value tag_content close_dom content_of insert equal
parse_html-document = refl

hi-Plain : Plain (codes "hi!")
unfolding is_plain
hi-Plain = (refl, (refl, (refl, tt)))

-- No text at all: the length of the content is negative.
empty_text : parse_html_to_dom [] (new_dom (codes "div")) ≡ thrown
unfolding parse_html_to_dom get_next_token gettok skip_from token_at tag_token identifier_from
    string_token string_from is_space_byte is_alpha_byte is_alnum_byte char_token parse_tag
    attribute_loop attribute_rest attribute_value tag_content close_dom content_of insert equal
empty_text = refl

parse_html_to_dom-Plain_example :
    parse_html_to_dom (codes "hi!") (new_dom (codes "div"))
    ≡ ok (plain_dom (codes "div") [] (codes "hi"))
parse_html_to_dom-Plain_example =
    parse_html_to_dom-Plain b'h' (codes "i!") (codes "div") [] [] unset hi-Plain

parse_html-total_example : parse_html document ≢ out_of_fuel
parse_html-total_example = parse_html-total document
