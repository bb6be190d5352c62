-- ===== src/Html/Chars.antt =====
-- What `int cur = *hit` makes of a byte, and the tests of <ctype.h> in the C locale.
use cpp_custom.Prelude.{Bool, false, if◌then◌else◌, leb, true, ℕ, ◌&&◌, ◌==◌, ◌||◌}

-- `LastChar`. A `char` is signed, so the byte 255 is the value of EOF; other bytes stay what they
-- are, those from 128 on standing for the negative numbers.
pub data Char : Type 0 where
  eof : Char
  chr : ℕ → Char

abbrev pub to_char : ℕ → Char
to_char c = if c == 255 then eof else chr c

abbrev within : ℕ → ℕ → ℕ → Bool
within lo hi c = leb lo c && leb c hi

unfoldable pub is_space_byte : ℕ → Bool
is_space_byte c = c == 32 || within 9 13 c

unfoldable pub is_alpha_byte : ℕ → Bool
is_alpha_byte c = within b'a' b'z' c || within b'A' b'Z' c

unfoldable pub is_alnum_byte : ℕ → Bool
unfolding is_alpha_byte
is_alnum_byte c = is_alpha_byte c || within b'0' b'9' c

abbrev pub is_space : Char → Bool
is_space eof = false
is_space (chr c) = is_space_byte c

-- `enum Token`, and a character by its number.
pub data Token : Type 0 where
  tok_eof tok_identifier tok_string tok_begin_tag tok_close_tag : Token
  tok_char : ℕ → Token

-- The token `ThisChar`: as signed numbers four bytes are the values of the enumeration.
unfoldable pub char_token : ℕ → Token
char_token c =
    if c == 254
    then tok_identifier
    else if c == 252
    then tok_string
    else if c == 251
    then tok_begin_tag
    else if c == 250
    then tok_close_tag
    else tok_char c

abbrev pub is_tok_eof : Token → Bool
is_tok_eof tok_eof = true
is_tok_eof _ = false

abbrev pub is_identifier : Token → Bool
is_identifier tok_identifier = true
is_identifier _ = false

abbrev pub is_string : Token → Bool
is_string tok_string = true
is_string _ = false

abbrev pub is_begin_tag : Token → Bool
is_begin_tag tok_begin_tag = true
is_begin_tag _ = false

abbrev pub is_close_tag : Token → Bool
is_close_tag tok_close_tag = true
is_close_tag _ = false

abbrev pub is_char : ℕ → Token → Bool
is_char c (tok_char d) = d == c
is_char c _ = false
