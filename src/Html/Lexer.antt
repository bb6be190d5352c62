-- ===== src/Html/Lexer.antt =====
-- getStrChar and gettok. The static variables are a record; `hit` is the text that is left.
use cpp_custom.Html.Chars.{
  Char, Token, char_token, chr, eof, is_alnum_byte, is_alpha_byte, is_identifier, is_space, to_char,
  tok_begin_tag, tok_close_tag, tok_eof, tok_identifier, tok_string,
}
use cpp_custom.Html.Result.{Result, diverges, ok, out_of_fuel, ◌>>=◌}
use cpp_custom.Prelude.{Bool, Bytes, [], false, if◌then◌else◌, suc, zero, ℕ, ◌++◌, ◌+◌, ◌==◌, ◌∷◌}

pub record Lexer : Type 0 where
  pub rest : Bytes
  pub identifier_str : Bytes
  pub str_val : Bytes
  pub tag_str : Bytes
  pub cur_tok_index : ℕ
  pub last_char : Char

-- initHtml, `html = content` and `hit = html.begin()`.
abbrev pub init_html : Bytes → Lexer
init_html html = record {
  rest = html;
  identifier_str = [];
  str_val = [];
  tag_str = [];
  cur_tok_index = 0;
  last_char = chr b' ';
}

-- `LastChar = getStrChar()`
abbrev pub read_from : Bytes → Lexer → Lexer
read_from [] l = record l { rest = []; last_char = eof }
read_from (c ∷ cs) l = record l {
  rest = cs;
  last_char = to_char c;
  cur_tok_index = l.cur_tok_index + 1;
}

abbrev pub read_char : Lexer → Lexer
read_char l = read_from l.rest l

-- The loop over white space; the first argument is the text that is left.
unfoldable pub skip_from : Bytes → Lexer → Lexer
skip_from [] l = if is_space l.last_char then read_from [] l else l
skip_from (c ∷ cs) l =
    let rest = skip_from cs (read_from (c ∷ cs) l) in if is_space l.last_char then rest else l

abbrev pub skip_spaces : Lexer → Lexer
skip_spaces l = skip_from l.rest l

abbrev pub push_identifier : ℕ → Lexer → Lexer
push_identifier c l = record l { identifier_str = l.identifier_str ++ c ∷ [] }

-- The loop behind the first letter of an identifier.
unfoldable pub identifier_from : Bytes → Lexer → Lexer
identifier_from [] l = read_from [] l
identifier_from (c ∷ cs) l =
    let more = identifier_from cs (push_identifier c (read_from (c ∷ cs) l)) in
    if is_alnum_byte c then more else read_from (c ∷ cs) l

-- The `do` loop of a string: the character at hand is stored before it is tested. At the end of
-- the text it never stops.
unfoldable pub string_from : Bytes → Bytes → Lexer → Result Lexer
string_from [] str l = diverges
string_from (c ∷ cs) str l =
    let more = string_from cs (str ++ c ∷ []) (read_from (c ∷ cs) l) in
    if c == b'"' then ok (read_char (record (read_from (c ∷ cs) l) { str_val = str })) else more

-- The byte that `str += LastChar` stores.
abbrev pub char_byte : Char → ℕ
char_byte eof = 255
char_byte (chr c) = c

-- Behind the opening quote.
unfoldable pub string_token : Lexer → Result (Token × Lexer)
string_token l = do l' ← string_from l.rest (char_byte l.last_char ∷ []) l; ok (tok_string, l')

abbrev pub is_slash : Char → Bool
is_slash eof = false
is_slash (chr c) = c == b'/'

-- The end of a tag: what the inner call of gettok returned, and whether there was a `/`.
unfoldable pub tag_token : Bool → Token × Lexer → Result (Token × Lexer)
tag_token end (t, l) =
    let named = record l { tag_str = l.identifier_str } in
    if is_identifier t
    then (if end then ok (tok_close_tag, read_char named) else ok (tok_begin_tag, named))
    else ok (tok_eof, l)

-- gettok behind the loop over white space; `again` is its inner call.
unfoldable pub token_at : (Lexer → Result (Token × Lexer)) → Char → Lexer → Result (Token × Lexer)
token_at again eof l = ok (tok_eof, l)
token_at again (chr c) l =
    let opened = read_char l in
    let end = is_slash opened.last_char in
    if is_alpha_byte c
    then ok (tok_identifier, identifier_from l.rest (record l { identifier_str = c ∷ [] }))
    else if c == b'"'
    then string_token opened
    else if c == b'<'
    then again (if end then read_char opened else opened) >>= tag_token end
    else ok (char_token c, read_char l)

unfoldable pub gettok : ℕ → Lexer → Result (Token × Lexer)
gettok zero l = out_of_fuel
gettok (suc f) l = let l' = skip_spaces l in token_at (gettok f) l'.last_char l'
