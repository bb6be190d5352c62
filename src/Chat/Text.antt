-- ===== src/Chat/Text.antt =====
-- socket/tcp-socket-client.cpp, tcp-socket-server.cpp, tcp-socket-server-thread.cpp and
-- tcp-socket-server-process.cpp: their buffers of 80 bytes, and what they test in a text.
use cpp_custom.Prelude.{
  Bool, Bytes, Option, [], ◌∷◌, ◌++◌, true, false, ◌&&◌, ◌||◌, none, some, ℕ, zero, suc, ◌-◌, ◌==◌,
  if◌then◌else◌, length, replicate, take,
}

-- MAX
abbrev pub max_bytes : ℕ
max_bytes = 80

abbrev pub zeros : ℕ → Bytes
zeros n = replicate n 0

-- A buffer that bzero has cleared and that the bytes, at most 80, are then put into.
unfoldable pub buffer : Bytes → Bytes
buffer bytes = bytes ++ zeros (max_bytes - length bytes)

-- `read` with sizeof(buff); `none` is an error and no byte the end of the connection.
unfoldable pub read_into : Option Bytes → Bytes
read_into none = buffer []
read_into (some bytes) = buffer (take max_bytes bytes)

unfoldable pub prepend : ℕ → Option Bytes → Option Bytes
prepend c none = none
prepend c (some text) = some (c ∷ text)

-- `std::string(buff)` and `%s`: the bytes before the first zero; `none` where the buffer has none
-- and the bytes behind it are read.
unfoldable pub string_of : Bytes → Option Bytes
string_of [] = none
string_of (c ∷ cs) = let later = prepend c (string_of cs) in if c == 0 then some [] else later

unfoldable pub starts_with : Bytes → Bytes → Bool
starts_with [] text = true
starts_with (c ∷ cs) [] = false
starts_with (c ∷ cs) (d ∷ text) = c == d && starts_with cs text

-- `text.find(word) != text.npos`
unfoldable pub contains : Bytes → Bytes → Bool
contains word [] = starts_with word []
contains word (c ∷ text) = starts_with word (c ∷ text) || contains word text

-- getchar; at the end of the input it gives EOF, which is 255 as a char.
abbrev pub getchar : Bytes → ℕ × Bytes
getchar [] = (255, [])
getchar (c ∷ input) = (c, input)

-- `while ((buff[n++] = getchar()) != '\n')` with room for so many bytes: what is typed, the line's
-- end included, and the input behind it; `none` where a byte is put behind the buffer.
abbrev pub keep : ℕ → Option (Bytes × Bytes) → Option (Bytes × Bytes)
keep c none = none
keep c (some (line, input)) = some (c ∷ line, input)

unfoldable pub type_line : ℕ → Bytes → Option (Bytes × Bytes)
type_line zero input = none
type_line (suc room) input =
    let (c, rest) = getchar input in
    let later = keep c (type_line room rest) in if c == 10 then some (c ∷ [], rest) else later
