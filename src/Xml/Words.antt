-- ===== src/Xml/Words.antt =====
-- gettok of the XML parser on words and tags.
use cpp_custom.Prelude.{
  Bytes, [], ◌∷◌, ◌++◌, true, false, ℕ, suc, ◌≡◌, refl, sym, ap, ◌∙◌, arith, ◌==◌, length,
  append-nil, append_assoc,
}
use cpp_custom.Html.Chars.{Char, chr, eof, is_alnum_byte, is_alpha_byte, is_space, is_space_byte}
use cpp_custom.Html.Result.{◌>>=◌, ok}
use cpp_custom.Xml.Lexer.{
  Token, Lexer, read_from, skip_from, push_identifier, identifier_from, tag_token, token_at, gettok,
  tok_identifier, tok_begin_tag, tok_close_tag,
}
use cpp_custom.Xml.Parser.{Parser, get_next_token}

abbrev pub AllAlnum : Bytes → Type 0
AllAlnum [] = Unit {0}
AllAlnum (c ∷ cs) = (is_alnum_byte c ≡ true) × AllAlnum cs

-- A letter with letters and digits behind it.
abbrev pub Name : Bytes → Type 0
Name [] = ⊥
Name (c ∷ cs) = (is_alpha_byte c ≡ true) × AllAlnum cs

abbrev first : Bytes → Char
first [] = eof
first (c ∷ cs) = chr c

abbrev behind : Bytes → Bytes
behind [] = []
behind (c ∷ cs) = cs

-- The lexer before a text, with the last identifier and tag.
abbrev pub lex : Bytes → Bytes → Bytes → Lexer
lex text i t = record {
  rest = behind text;
  identifier_str = i;
  tag_str = t;
  last_char = first text;
}

read_from-lex : (xs : Bytes) (l : Lexer) → read_from xs l ≡ lex xs l.identifier_str l.tag_str
read_from-lex [] l = refl
read_from-lex (c ∷ cs) l = refl

identifier_from-lex :
    (cs : Bytes) (d : ℕ) (rest : Bytes) (l : Lexer)
    → AllAlnum cs
    → is_alnum_byte d ≡ false
    → identifier_from (cs ++ d ∷ rest) l ≡ lex (d ∷ rest) (l.identifier_str ++ cs) l.tag_str
unfolding identifier_from
identifier_from-lex [] d rest l h e =
    rw e (ap (λ i. lex (d ∷ rest) i l.tag_str) (sym (append-nil l.identifier_str)))
identifier_from-lex (c ∷ cs) d rest l h e = rw h.0 (
    identifier_from-lex cs d rest (push_identifier c (read_from (c ∷ cs ++ d ∷ rest) l)) h.1 e
    ∙ ap (λ i. lex (d ∷ rest) i l.tag_str) (append_assoc l.identifier_str (c ∷ []) cs))

skip_stay : (xs : Bytes) (l : Lexer) → is_space l.last_char ≡ false → skip_from xs l ≡ l
unfolding skip_from
skip_stay [] l e = rw e refl
skip_stay (c ∷ cs) l e = rw e refl

alpha_solid : (c : ℕ) → is_alpha_byte c ≡ true → is_space_byte c ≡ false
unfolding is_alpha_byte is_space_byte
alpha_solid c h = ground arith

alpha_no_slash : (c : ℕ) → is_alpha_byte c ≡ true → (c == b'/') ≡ false
unfolding is_alpha_byte
alpha_no_slash c h = ground arith

pub gettok-word :
    (f : ℕ) (w : Bytes) (d : ℕ) (rest i t : Bytes)
    → Name w
    → is_alnum_byte d ≡ false
    → gettok (suc f) (lex (w ++ d ∷ rest) i t) ≡ ok (tok_identifier, lex (d ∷ rest) w t)
unfolding gettok token_at
gettok-word f [] d rest i t h e = absurd h
gettok-word f (c ∷ cs) d rest i t h e =
    rw (skip_stay (cs ++ d ∷ rest) (lex (c ∷ cs ++ d ∷ rest) i t) (alpha_solid c h.0), h.0)
      (ap (λ l. ok (tok_identifier, l))
        (identifier_from-lex cs d rest
          (record (lex (c ∷ cs ++ d ∷ rest) i t) { identifier_str = c ∷ [] }) h.1 e))

bracket_ends : is_alnum_byte b'>' ≡ false
unfolding is_alnum_byte
bracket_ends = refl

pub gettok-begin :
    (f : ℕ) (w rest i t : Bytes)
    → Name w
    → gettok (suc (suc f)) (lex (b'<' ∷ w ++ b'>' ∷ rest) i t) ≡ ok (tok_begin_tag, lex rest w w)
unfolding gettok token_at tag_token skip_from is_space_byte is_alpha_byte
gettok-begin f [] rest i t h = absurd h
gettok-begin f (c ∷ cs) rest i t h = rw (alpha_no_slash c h.0) (
    ap (λ r. r >>= tag_token false) (gettok-word f (c ∷ cs) b'>' rest i t h bracket_ends)
    ∙ ap (λ l. ok (tok_begin_tag, l))
        (read_from-lex rest (record (lex (b'>' ∷ rest) (c ∷ cs) t) { tag_str = c ∷ cs })))

pub gettok-close :
    (f : ℕ) (w rest i t : Bytes)
    → Name w
    → gettok (suc (suc f)) (lex (b'<' ∷ b'/' ∷ w ++ b'>' ∷ rest) i t)
      ≡ ok (tok_close_tag, lex rest w w)
unfolding gettok token_at tag_token skip_from is_space_byte is_alpha_byte
gettok-close f [] rest i t h = absurd h
gettok-close f (c ∷ cs) rest i t h =
    ap (λ r. r >>= tag_token true) (gettok-word f (c ∷ cs) b'>' rest i t h bracket_ends)
    ∙ ap (λ l. ok (tok_close_tag, l))
        (read_from-lex rest (record (lex (b'>' ∷ rest) (c ∷ cs) t) { tag_str = c ∷ cs }))

-- A word behind a space.
pub gettok-next :
    (f : ℕ) (w : Bytes) (d : ℕ) (rest i t : Bytes)
    → Name w
    → is_alnum_byte d ≡ false
    → gettok (suc f) (lex (b' ' ∷ w ++ d ∷ rest) i t) ≡ ok (tok_identifier, lex (d ∷ rest) w t)
unfolding gettok token_at skip_from is_space_byte
gettok-next f [] d rest i t h e = absurd h
gettok-next f (c ∷ cs) d rest i t h e = gettok-word f (c ∷ cs) d rest i t h e

-- The parser before a text, behind a token.
abbrev pub before : Token → Bytes → Bytes → Bytes → Parser
before token text i t = record { lexer = lex text i t; cur_tok = token }

pub next_token :
    (token found : Token) (input text i t j u : Bytes)
    → ((f : ℕ) → gettok (suc (suc f)) (lex input i t) ≡ ok (found, lex text j u))
    → get_next_token (before token input i t) ≡ ok (before found text j u)
unfolding get_next_token
next_token token found input text i t j u h =
    ap (λ r. r >>= λ (t, l). ok (record { lexer = l; cur_tok = t }))
      (h (length (lex input i t).rest))
