-- ===== src/Xml/Parsed.antt =====
-- The XML parser reads printed documents back.
use cpp_custom.Prelude.{
  Bytes, [], ◌∷◌, ◌++◌, length, codes, some, false, ℕ, zero, suc, ◌+◌, ◌<◌, ◌≡◌, refl, sym, ap, ◌∙◌,
  arith, equal,
}
use cpp_custom.Html.Chars.{is_alpha_byte, is_alnum_byte, is_space_byte}
use cpp_custom.Html.Result.{◌>>=◌, ok}
use cpp_custom.Xml.Lexer.{
  Token, init_xml, skip_from, token_at, gettok, tok_eof, tok_begin_tag, tok_close_tag,
}
use cpp_custom.Xml.Parser.{
  Node, Pairs, get_next_token, push_back, slot_of, parse_xml, parse_fuel, parse_input, content_loop,
  nodes, nil, cons,
}
use cpp_custom.Xml.Words.{Name, before, lex, gettok-begin}
use cpp_custom.Xml.Printed.{
  Doc, Docs, open_with, close_with, print_doc, print_docs, node_of, pairs_of, Valid, AllValid, need,
  need_all, need-least, need-print_doc, words, tags, no_tags, tag,
}
use cpp_custom.Xml.Read.{
  closed, close-token, open-token, word-token, content_loop-closed, content_loop-words,
}

-- The tags so far with those that follow.
abbrev pub append : Pairs → Pairs → Pairs
append nil ps = ps
append (cons k n rest) ps = cons k n (append rest ps)

append-push_back :
    (child : Pairs) (k : Bytes) (n : Node) (ps : Pairs)
    → append (push_back child k n) ps ≡ append child (cons k n ps)
append-push_back nil k n ps = refl
append-push_back (cons j m child) k n ps = ap (λ l. cons j m l) (append-push_back child k n ps)

append-nil_pairs : (child : Pairs) → append child nil ≡ child
append-nil_pairs nil = refl
append-nil_pairs (cons k n child) = ap (λ l. cons k n l) (append-nil_pairs child)

slot_of-push_back :
    (child : Pairs) (k : Bytes) (n : Node)
    → slot_of [] (push_back child k n) ≡ nodes (push_back child k n)
slot_of-push_back nil k n = refl
slot_of-push_back (cons j m child) k n = refl

-- The content of the tag `name` with what stands behind it.
abbrev content : Doc → Bytes → Bytes → Bytes
content d name rest = print_doc d (close_with name rest)

-- The loop behind the end of a tag inside that has another name.
content_loop-close :
    (f : ℕ) (parent k rest : Bytes) (child : Pairs)
    → equal k parent ≡ false
    → content_loop (suc f) parent [] child (closed k rest)
      ≡ get_next_token (closed k rest) >>= content_loop f parent [] child
unfolding content_loop
content_loop-close f parent k rest child e = rw (e, content_loop) refl

content_loop-begin :
    (f : ℕ) (parent k input : Bytes) (child : Pairs)
    → content_loop (suc f) parent [] child (before tok_begin_tag input k k)
      ≡ parse_xml f k (before tok_begin_tag input k k) >>= λ (node, q).
          content_loop f parent [] (push_back child q.lexer.tag_str node) q
unfolding content_loop
content_loop-begin f parent k input child = refl

abbrev pred : ℕ → ℕ
pred zero = 0
pred (suc n) = n

mutual
  unfolding print_doc print_docs node_of pairs_of Valid AllValid need need_all parse_xml

  parse_xml-doc :
      (f : ℕ) (d : Doc) (token : Token) (name rest i t : Bytes)
      → need d < f
      → Name name
      → Valid name d
      → parse_xml f name (before token (content d name rest) i t) ≡ ok (node_of d, closed name rest)
  parse_xml-doc zero d token name rest i t lt n v = absurd (omega arith)
  parse_xml-doc (suc zero) (words ws) token name rest i t lt n v = absurd (omega arith)
  parse_xml-doc (suc zero) (tags k d ds) token name rest i t lt n v = absurd (omega arith)
  parse_xml-doc (suc (suc f)) (words []) token name rest i t lt n v =
      rw (close-token token name rest i t n) (content_loop-closed f name [] rest nil)
  parse_xml-doc (suc (suc f)) (words ([] ∷ ws)) token name rest i t lt n v = absurd v.0
  parse_xml-doc (suc (suc f)) (words ((c ∷ cs) ∷ ws)) token name rest i t lt n v =
      rw (word-token token (c ∷ cs) name ws rest i t v.0)
        (content_loop-words (suc f) name [] (c ∷ cs) rest t c cs ws (omega arith) n v.1 refl)
  parse_xml-doc (suc (suc f)) (tags k d ds) token name rest i t lt n v =
      rw (open-token token k (content d k (print_docs ds (close_with name rest))) i t v.0)
        (content_loop-docs (suc f) k d ds name rest nil (omega arith) n v)

  content_loop-docs :
      (f : ℕ) (k : Bytes) (d : Doc) (ds : Docs) (name rest : Bytes) (child : Pairs)
      → 1 + need d + need_all ds < f
      → Name name
      → Name k × (equal k name ≡ false) × Valid k d × AllValid name ds
      → content_loop f name [] child
          (before tok_begin_tag (content d k (print_docs ds (close_with name rest))) k k)
        ≡ ok (nodes (append child (cons k (node_of d) (pairs_of ds))), closed name rest)
  content_loop-docs zero k d ds name rest child lt n v = absurd (omega arith)
  content_loop-docs (suc zero) k d ds name rest child lt n v = absurd (omega arith)
  content_loop-docs (suc (suc f)) k d ds name rest child lt n v =
      let input : Bytes = print_docs ds (close_with name rest) in
      content_loop-begin (suc f) name k (content d k input) child
      ∙ rw (parse_xml-doc (suc f) d tok_begin_tag k input k k (omega arith) v.0 v.2) (
          content_loop-close f name k input (push_back child k (node_of d)) v.1
          ∙ content_loop-rest (suc f) ds name k rest child (node_of d)
              (omega (arith, lt, need-least d)) n v.3
          ∙ ap (λ ps. ok (nodes ps, closed name rest))
              (append-push_back child k (node_of d) (pairs_of ds)))

  -- Behind the tag `k`, with one fuel more than the loop has.
  content_loop-rest :
      (g : ℕ) (ds : Docs) (name k rest : Bytes) (child : Pairs) (node : Node)
      → need_all ds + 1 < g
      → Name name
      → AllValid name ds
      → (get_next_token (closed k (print_docs ds (close_with name rest)))
          >>= content_loop (pred g) name [] (push_back child k node))
        ≡ ok (nodes (append (push_back child k node) (pairs_of ds)), closed name rest)
  content_loop-rest zero ds name k rest child node lt n v = absurd (omega arith)
  content_loop-rest (suc zero) ds name k rest child node lt n v = absurd (omega arith)
  content_loop-rest (suc (suc f)) no_tags name k rest child node lt n v =
      rw (close-token tok_close_tag name rest k k n) (
        content_loop-closed f name [] rest (push_back child k node)
        ∙ ap (λ m. ok (m, closed name rest))
            (slot_of-push_back child k node
              ∙ ap nodes (sym (append-nil_pairs (push_back child k node)))))
  content_loop-rest (suc (suc f)) (tag l d ds) name k rest child node lt n v =
      rw (open-token tok_close_tag l (content d l (print_docs ds (close_with name rest))) k k v.0)
        (content_loop-docs (suc f) l d ds name rest (push_back child k node) (omega arith) n v)

-- The space init_xml starts with is skipped.
gettok-init :
    (f : ℕ) (text : Bytes)
    → gettok (suc f) (init_xml (b'<' ∷ text)) ≡ gettok (suc f) (lex (b'<' ∷ text) [] [])
unfolding gettok skip_from is_space_byte
gettok-init f text = ap (λ l. token_at (gettok f) l.last_char l) (skips text)
  where
    skips :
        (text : Bytes)
        → skip_from (b'<' ∷ text) (init_xml (b'<' ∷ text))
          ≡ skip_from text (lex (b'<' ∷ text) [] [])
    skips [] = refl
    skips (c ∷ cs) = refl

first-token :
    (name rest : Bytes)
    → Name name
    → get_next_token (record { lexer = init_xml (open_with name rest); cur_tok = tok_eof })
      ≡ ok (before tok_begin_tag rest name name)
unfolding get_next_token
first-token name rest h =
    ap (λ r. r >>= λ (t, l). ok (record { lexer = l; cur_tok = t }))
      (gettok-init (suc (length (open_with name rest))) (name ++ b'>' ∷ rest)
        ∙ gettok-begin (length (open_with name rest)) name rest [] [] h)

-- Behind the last tag the text ends.
last-token : (name : Bytes) → get_next_token (closed name []) ≡ ok (before tok_eof [] name name)
unfolding get_next_token gettok token_at skip_from
last-token name = refl

xml-Name : Name (codes "xml")
unfolding is_alpha_byte is_alnum_byte
xml-Name = (refl, (refl, (refl, tt)))

-- `print_doc` prints the document `d` inside the tag xml: words with a space between, or tags with such a document
-- inside, in which words and names of tags are a letter and then letters or digits, and no tag has the name of the tag
-- around it. main then reads back the root that stands for `d`, with the words and the tags in the same order.
pub parse_input-print_doc :
    (d : Doc)
    → Valid (codes "xml") d
    → parse_input (open_with (codes "xml") (print_doc d (close_with (codes "xml") [])))
      ≡ ok (some (node_of d))
unfolding parse_input equal
parse_input-print_doc d v =
    let inner : Bytes = print_doc d (close_with (codes "xml") []) in
    let enough : need d < parse_fuel (open_with (codes "xml") inner) =
      omega (arith, need-print_doc d (close_with (codes "xml") [])) in
    rw (first-token (codes "xml") inner xml-Name) (
      rw
        (parse_xml-doc (parse_fuel (open_with (codes "xml") inner)) d tok_begin_tag (codes "xml") []
          (codes "xml") (codes "xml") enough xml-Name v)
        (rw (last-token (codes "xml")) refl))
