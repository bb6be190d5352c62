-- ===== src/Xml/Printed.antt =====
-- Documents of the XML parser, and how they are printed.
use cpp_custom.Prelude.{
  Bytes, List, [], ◌∷◌, ◌++◌, false, ℕ, ◌+◌, ◌*◌, ◌≤◌, ◌≡◌, arith, equal, length, length-append,
}
use cpp_custom.Xml.Words.{Name}
use cpp_custom.Xml.Parser.{Node, Pairs, text, nodes, nil, cons}

-- What stands between a tag and its end: words, or tags, at least one.
mutual
  pub data Doc : Type 0 where
    words : List Bytes → Doc
    tags : Bytes → Doc → Docs → Doc

  pub data Docs : Type 0 where
    no_tags : Docs
    tag : Bytes → Doc → Docs → Docs

-- Words with a space between, in front of `rest`.
abbrev pub print_more : List Bytes → Bytes → Bytes
print_more [] rest = rest
print_more (w ∷ ws) rest = b' ' ∷ w ++ print_more ws rest

abbrev pub print_words : List Bytes → Bytes → Bytes
print_words [] rest = rest
print_words (w ∷ ws) rest = w ++ print_more ws rest

abbrev pub open_with : Bytes → Bytes → Bytes
open_with name rest = b'<' ∷ name ++ b'>' ∷ rest

abbrev pub close_with : Bytes → Bytes → Bytes
close_with name rest = b'<' ∷ b'/' ∷ name ++ b'>' ∷ rest

unfoldable mutual
  pub print_doc : Doc → Bytes → Bytes
  print_doc (words ws) rest = print_words ws rest
  print_doc (tags name d ds) rest =
      open_with name (print_doc d (close_with name (print_docs ds rest)))

  pub print_docs : Docs → Bytes → Bytes
  print_docs no_tags rest = rest
  print_docs (tag name d ds) rest =
      open_with name (print_doc d (close_with name (print_docs ds rest)))

unfoldable mutual
  pub node_of : Doc → Node
  node_of (words ws) = text (print_words ws [])
  node_of (tags name d ds) = nodes (cons name (node_of d) (pairs_of ds))

  pub pairs_of : Docs → Pairs
  pairs_of no_tags = nil
  pairs_of (tag name d ds) = cons name (node_of d) (pairs_of ds)

abbrev pub AllNames : List Bytes → Type 0
AllNames [] = Unit {0}
AllNames (w ∷ ws) = Name w × AllNames ws

-- Words and tags are names, and no tag has the name of the tag around it.
unfoldable mutual
  pub Valid : Bytes → Doc → Type 0
  Valid parent (words ws) = AllNames ws
  Valid parent (tags name d ds) =
      Name name × (equal name parent ≡ false) × Valid name d × AllValid parent ds

  pub AllValid : Bytes → Docs → Type 0
  AllValid parent no_tags = Unit {0}
  AllValid parent (tag name d ds) =
      Name name × (equal name parent ≡ false) × Valid name d × AllValid parent ds

-- The turns of the parser.
unfoldable mutual
  pub need : Doc → ℕ
  need (words ws) = length ws + 3
  need (tags name d ds) = 3 + need d + need_all ds

  pub need_all : Docs → ℕ
  need_all no_tags = 1
  need_all (tag name d ds) = 2 + need d + need_all ds

pub need-least : (d : Doc) → 3 ≤ need d
unfolding need
need-least (words ws) = omega arith
need-least (tags name d ds) = omega arith

length-print_more :
    (ws : List Bytes) (rest : Bytes) → length ws + length rest ≤ length (print_more ws rest)
length-print_more [] rest = omega arith
length-print_more (w ∷ ws) rest =
    omega (arith, length-append w (print_more ws rest), length-print_more ws rest)

length-tag :
    (name : Bytes) (d : Doc) (rest : Bytes)
    → need d + 2 * length (close_with name rest)
      ≤ 2 * length (print_doc d (close_with name rest)) + 4
    → need d + 2 * length rest + 2
      ≤ 2 * length (open_with name (print_doc d (close_with name rest)))
length-tag name d rest h = omega (
  arith,
  h,
  length-append name (b'>' ∷ rest),
  length-append name (b'>' ∷ print_doc d (close_with name rest)),
)

mutual
  unfolding need need_all print_doc print_docs

  pub need-print_doc :
      (d : Doc) (rest : Bytes) → need d + 2 * length rest ≤ 2 * length (print_doc d rest) + 4
  need-print_doc (words []) rest = omega arith
  need-print_doc (words (w ∷ ws)) rest =
      omega (arith, length-append w (print_more ws rest), length-print_more ws rest)
  need-print_doc (tags name d ds) rest = omega (
    arith,
    need-print_docs ds rest,
    length-tag name d (print_docs ds rest)
        (need-print_doc d (close_with name (print_docs ds rest))),
  )

  need-print_docs :
      (ds : Docs) (rest : Bytes)
      → need_all ds + 2 * length rest ≤ 2 * length (print_docs ds rest) + 1
  need-print_docs no_tags rest = omega arith
  need-print_docs (tag name d ds) rest = omega (
    arith,
    need-print_docs ds rest,
    length-tag name d (print_docs ds rest)
        (need-print_doc d (close_with name (print_docs ds rest))),
  )
