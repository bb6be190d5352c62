-- ===== src/Browser/Content.antt =====
-- getFileContent, grow_buffer and the string that getRemoteContent makes of the buffer.
use cpp_custom.Prelude.{
  Bool, Bytes, Option, [], if◌then◌else◌, leb, length, none, not, some, suc, take, zero, ℕ, ◌&&◌,
  ◌%◌, ◌*◌, ◌++◌, ◌+◌, ◌==◌, ◌^◌, ◌∷◌,
}

-- `getline`: the line and the text behind it, or `none` at the end of the text.
abbrev add_front : ℕ → Bytes × Bytes → Bytes × Bytes
add_front c (line, rest) = (c ∷ line, rest)

unfoldable pub split_line : Bytes → Bytes × Bytes
split_line [] = ([], [])
split_line (c ∷ cs) = let later = split_line cs in if c == 10 then ([], cs) else add_front c later

unfoldable pub get_line : Bytes → Option (Bytes × Bytes)
get_line [] = none
get_line (c ∷ cs) = some (split_line (c ∷ cs))

abbrev next_line : (Bytes → Bytes → Option Bytes) → Bytes → Option (Bytes × Bytes) → Option Bytes
next_line again content none = some content
next_line again content (some (line, rest)) = again (content ++ line) rest

-- The loop of getFileContent on the text that is left; `none` if the fuel runs out.
unfoldable pub read_lines : ℕ → Bytes → Bytes → Option Bytes
read_lines zero content file = none
read_lines (suc f) content file = next_line (read_lines f) content (get_line file)

-- The file's bytes, or `none` if it does not open.
unfoldable pub get_file_content : Option Bytes → Option Bytes
get_file_content none = some []
get_file_content (some file) = read_lines (suc (length file)) [] file

-- `memory`: the bytes written, and the size of the block. They are fewer than the block has at the
-- start only.
pub record Memory : Type 0 where
  pub buf : Bytes
  pub size : ℕ
  pub capacity : ℕ

abbrev pub empty_memory : Memory
empty_memory = record { buf = []; size = 0; capacity = 1 }

-- `fits` tells whether realloc succeeds. The result is what is returned, and `none` where the copy
-- reads or writes outside of its blocks.
unfoldable pub grow_buffer : (ℕ → Bool) → Bytes → ℕ → ℕ → Memory → Option (ℕ × Memory)
grow_buffer fits contents sz nmemb mem =
    let realsize = (sz * nmemb) % 2 ^ 64 in
    let total = (mem.size + realsize) % 2 ^ 64 in
    if not (fits total)
    then some (0, mem)
    else if leb realsize (length contents) && leb (mem.size + realsize) total
    then some (
      realsize,
      record {
        buf = take mem.size mem.buf ++ take realsize contents;
        size = total;
        capacity = total;
      },
    )
    else none

abbrev prepend : ℕ → Option Bytes → Option Bytes
prepend c none = none
prepend c (some s) = some (c ∷ s)

-- `string(mem->buf)`: the bytes before the first zero. Behind the last byte written the block ends,
-- or holds no value.
unfoldable pub c_string : Bytes → Option Bytes
c_string [] = none
c_string (c ∷ cs) = let later = c_string cs in if c == 0 then some [] else prepend c later
