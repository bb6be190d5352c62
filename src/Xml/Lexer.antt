-- ===== src/Xml/Lexer.antt =====
-- gettok of the XML parser. The input is what getchar has not read yet.
use cpp_custom.Html.Chars.{Char, chr, eof, is_alnum_byte, is_alpha_byte, is_space}
use cpp_custom.Html.Result.{Result, ok, out_of_fuel, thrown, ◌>>=◌}
use cpp_custom.Prelude.{Bool, Bytes, [], false, if◌then◌else◌, suc, true, zero, ℕ, ◌++◌, ◌==◌, ◌∷◌}

-- `getchar` gives a byte as a number from 0 on, so no byte is taken for a token of the enumeration.
pub data Token : Type 0 where
  tok_eof tok_identifier tok_begin_tag tok_close_tag : Token
  tok_char : ℕ → Token

pub record Lexer : Type 0 where
  pub rest : Bytes
  pub identifier_str : Bytes
  pub tag_str : Bytes
  pub last_char : Char

abbrev pub init_xml : Bytes → Lexer
init_xml input = record { rest = input; identifier_str = []; tag_str = []; last_char = chr b' ' }

-- `LastChar = getchar()`
abbrev pub read_from : Bytes → Lexer → Lexer
read_from [] l = record l { rest = []; last_char = eof }
read_from (c ∷ cs) l = record l { rest = cs; last_char = chr c }

abbrev pub read_char : Lexer → Lexer
read_char l = read_from l.rest l

unfoldable pub skip_from : Bytes → Lexer → Lexer
skip_from [] l = if is_space l.last_char then read_from [] l else l
skip_from (c ∷ cs) l =
    let rest = skip_from cs (read_from (c ∷ cs) l) in if is_space l.last_char then rest else l

abbrev pub push_identifier : ℕ → Lexer → Lexer
push_identifier c l = record l { identifier_str = l.identifier_str ++ c ∷ [] }

unfoldable pub identifier_from : Bytes → Lexer → Lexer
identifier_from [] l = read_from [] l
identifier_from (c ∷ cs) l =
    let more = identifier_from cs (push_identifier c (read_from (c ∷ cs) l)) in
    if is_alnum_byte c then more else read_from (c ∷ cs) l

abbrev pub is_slash : Char → Bool
is_slash eof = false
is_slash (chr c) = c == b'/'

abbrev pub is_identifier : Token → Bool
is_identifier tok_identifier = true
is_identifier _ = false

-- The end of a tag, with what the inner call returned; `thrown` is the string "xml is error".
unfoldable pub tag_token : Bool → Token × Lexer → Result (Token × Lexer)
tag_token end (t, l) =
    if is_identifier t
    then ok (
      if end then tok_close_tag else tok_begin_tag,
      read_char (record l { tag_str = l.identifier_str }),
    )
    else thrown

abbrev pub open_tag : Lexer → Lexer
open_tag l =
    let opened = read_char l in if is_slash opened.last_char then read_char opened else opened

unfoldable pub token_at : (Lexer → Result (Token × Lexer)) → Char → Lexer → Result (Token × Lexer)
token_at again eof l = ok (tok_eof, l)
token_at again (chr c) l =
    if is_alpha_byte c
    then ok (tok_identifier, identifier_from l.rest (record l { identifier_str = c ∷ [] }))
    else if c == b'<'
    then again (open_tag l) >>= tag_token (is_slash (read_char l).last_char)
    else ok (tok_char c, read_char l)

unfoldable pub gettok : ℕ → Lexer → Result (Token × Lexer)
gettok zero l = out_of_fuel
gettok (suc f) l = let l' = skip_from l.rest l in token_at (gettok f) l'.last_char l'
