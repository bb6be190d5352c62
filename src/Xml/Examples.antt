-- ===== src/Xml/Examples.antt =====
-- Tests of the XML parser, and its theorem at a concrete input.
use cpp_custom.Html.Chars.{is_alnum_byte, is_alpha_byte, is_space_byte}
use cpp_custom.Html.Result.{ok, out_of_fuel}
use cpp_custom.Xml.Printed.{
  AllValid, Doc, Valid, close_with, no_tags, node_of, open_with, print_doc, tag, tags, words,
}
use cpp_custom.Xml.Parsed.{parse_input-print_doc}
use cpp_custom.Prelude.{[], ◌∷◌, Bytes, codes, equal, refl, some, ◌≡◌, ◌≢◌}
use cpp_custom.Xml.Lexer.{gettok, identifier_from, skip_from, tag_token, token_at}
use cpp_custom.Xml.Parser.{
  content_loop, cons, get_next_token, nil, nodes, parse_input, parse_xml, text,
}
use cpp_custom.Xml.Total.{parse_input-total}

abbrev document : Bytes
document = codes "<xml><a>one two!</a><b>c</b></xml>"

parse_input-document :
    parse_input document
    ≡ ok (
        some (
          nodes
            (cons (codes "a") (text (codes "one two!")) (cons (codes "b") (text (codes "c")) nil))))
unfolding parse_input get_next_token gettok skip_from token_at tag_token identifier_from
    is_space_byte is_alpha_byte is_alnum_byte parse_xml content_loop equal
parse_input-document = refl

-- Tags of one name inside each other: the end of the inner one ends the outer one too, and the tag
-- behind it becomes its neighbour.
parse_input-nested :
    parse_input (codes "<xml><a><a>x</a><b>y</b></a></xml>")
    ≡ ok (
        some (
          nodes (
            cons
              (codes "a")
              (nodes (cons (codes "a") (text (codes "x")) nil))
              (cons (codes "b") (text (codes "y")) nil))))
unfolding parse_input get_next_token gettok skip_from token_at tag_token identifier_from
    is_space_byte is_alpha_byte is_alnum_byte parse_xml content_loop equal
parse_input-nested = refl

parse_input-total_example : parse_input document ≢ out_of_fuel
parse_input-total_example = parse_input-total document

-- Two words in a, and in b a tag with a word.
abbrev sample : Doc
sample =
    tags (codes "a") (words (codes "one" ∷ codes "two" ∷ []))
      (tag (codes "b") (tags (codes "c") (words (codes "x1" ∷ [])) no_tags) no_tags)

parse_input-print_doc_example :
    parse_input (open_with (codes "xml") (print_doc sample (close_with (codes "xml") [])))
    ≡ ok (some (node_of sample))
unfolding Valid AllValid is_alpha_byte is_alnum_byte equal
parse_input-print_doc_example = parse_input-print_doc sample (
  (refl, tt),
  refl,
  ((refl, (refl, (refl, tt))), ((refl, (refl, (refl, tt))), tt)),
  ((refl, tt), refl, ((refl, tt), refl, ((refl, (refl, tt)), tt), tt), tt),
)
