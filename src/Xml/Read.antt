-- ===== src/Xml/Read.antt =====
-- The XML parser on printed documents.
use cpp_custom.Prelude.{
  Bytes, List, [], ◌∷◌, ◌++◌, false, ℕ, zero, suc, ◌+◌, ◌<◌, ◌≡◌, refl, sym, ap, ◌∙◌, arith, equal,
  equal_refl, length, append-nil, append_assoc,
}
use cpp_custom.Html.Chars.{is_alnum_byte}
use cpp_custom.Html.Result.{ok}
use cpp_custom.Xml.Lexer.{Token, tok_identifier, tok_begin_tag, tok_close_tag}
use cpp_custom.Xml.Parser.{
  Pairs, Parser, get_next_token, slot_of, add_text, content_loop, text, nil,
}
use cpp_custom.Xml.Words.{
  Name, gettok-word, gettok-begin, gettok-close, gettok-next, before, next_token,
}
use cpp_custom.Xml.Printed.{print_more, open_with, close_with, AllNames}

-- The parser behind the end of a tag.
abbrev pub closed : Bytes → Bytes → Parser
closed name rest = before tok_close_tag rest name name

-- The parser behind the word `w`.
abbrev pub behind_word : Bytes → Bytes → Bytes → Parser
behind_word w rest t = before tok_identifier rest w t

pub close-token :
    (token : Token) (name rest i t : Bytes)
    → Name name
    → get_next_token (before token (close_with name rest) i t) ≡ ok (closed name rest)
close-token token name rest i t h =
    next_token token tok_close_tag (close_with name rest) rest i t name name
      λ f. gettok-close f name rest i t h

pub open-token :
    (token : Token) (name rest i t : Bytes)
    → Name name
    → get_next_token (before token (open_with name rest) i t)
      ≡ ok (before tok_begin_tag rest name name)
open-token token name rest i t h =
    next_token token tok_begin_tag (open_with name rest) rest i t name name
      λ f. gettok-begin f name rest i t h

no_word : (is_alnum_byte b' ' ≡ false) × (is_alnum_byte b'<' ≡ false)
unfolding is_alnum_byte
no_word = (refl, refl)

pub word-token :
    (token : Token) (w name : Bytes) (ws : List Bytes) (rest i t : Bytes)
    → Name w
    → get_next_token (before token (w ++ print_more ws (close_with name rest)) i t)
      ≡ ok (behind_word w (print_more ws (close_with name rest)) t)
word-token token w name [] rest i t h =
    next_token token tok_identifier (w ++ close_with name rest) (close_with name rest) i t w t
      λ f. gettok-word (suc f) w b'<' (b'/' ∷ name ++ b'>' ∷ rest) i t h no_word.1
word-token token w name (v ∷ vs) rest i t h =
    let more : Bytes = v ++ print_more vs (close_with name rest) in
    next_token token tok_identifier (w ++ b' ' ∷ more) (b' ' ∷ more) i t w t
      λ f. gettok-word (suc f) w b' ' more i t h no_word.0

space-token :
    (token : Token) (w name : Bytes) (ws : List Bytes) (rest i t : Bytes)
    → Name w
    → get_next_token (before token (b' ' ∷ w ++ print_more ws (close_with name rest)) i t)
      ≡ ok (behind_word w (print_more ws (close_with name rest)) t)
space-token token w name [] rest i t h =
    next_token token tok_identifier (b' ' ∷ w ++ close_with name rest) (close_with name rest) i t w
      t λ f. gettok-next (suc f) w b'<' (b'/' ∷ name ++ b'>' ∷ rest) i t h no_word.1
space-token token w name (v ∷ vs) rest i t h =
    let more : Bytes = v ++ print_more vs (close_with name rest) in
    next_token token tok_identifier (b' ' ∷ w ++ b' ' ∷ more) (b' ' ∷ more) i t w t
      λ f. gettok-next (suc f) w b' ' more i t h no_word.0

-- The end of the content.
pub content_loop-closed :
    (f : ℕ) (name str rest : Bytes) (child : Pairs)
    → content_loop (suc f) name str child (closed name rest)
      ≡ ok (slot_of str child, closed name rest)
unfolding content_loop equal
content_loop-closed f name str rest child = rw (equal_refl name) refl

-- The words behind `w`; `c ∷ cs` is the text with it.
pub content_loop-words :
    (f : ℕ) (name str w rest t : Bytes) (c : ℕ) (cs : Bytes) (ws : List Bytes)
    → length ws + 1 < f
    → Name name
    → AllNames ws
    → add_text str (behind_word w (print_more ws (close_with name rest)) t) ≡ c ∷ cs
    → content_loop f name str nil (behind_word w (print_more ws (close_with name rest)) t)
      ≡ ok (text (c ∷ cs ++ print_more ws []), closed name rest)
unfolding content_loop
content_loop-words zero name str w rest t c cs ws lt n h e = absurd (omega arith)
content_loop-words (suc zero) name str w rest t c cs ws lt n h e = absurd (omega arith)
content_loop-words (suc (suc f)) name str w rest t c cs [] lt n h e =
    rw (close-token tok_identifier name rest w t n, e)
      (content_loop-closed f name (c ∷ cs) rest nil
        ∙ ap (λ s. ok (text (c ∷ s), closed name rest)) (sym (append-nil cs)))
content_loop-words (suc (suc f)) name str w rest t c cs (v ∷ vs) lt n h e =
    rw (space-token tok_identifier v name vs rest w t h.0, e)
      (content_loop-words (suc f) name (c ∷ cs) v rest t c ((cs ++ b' ' ∷ []) ++ v) vs (omega arith)
          n h.1 refl
        ∙ ap (λ s. ok (text (c ∷ s), closed name rest))
            (append_assoc (cs ++ b' ' ∷ []) v (print_more vs [])
              ∙ append_assoc cs (b' ' ∷ []) (v ++ print_more vs [])))
