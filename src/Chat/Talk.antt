-- ===== src/Chat/Talk.antt =====
-- socket/tcp-socket-client.cpp, tcp-socket-server.cpp, tcp-socket-server-thread.cpp and
-- tcp-socket-server-process.cpp: `communication`. A round is one turn of its loop.
use cpp_custom.Prelude.{Bool, Bytes, List, Option, [], ◌∷◌, ◌++◌, true, false, none, some, codes}
use cpp_custom.Chat.Text.{max_bytes, buffer, read_into, string_of, starts_with, contains, type_line}

-- How the loop ends; `going` where the rounds that are given are over. `undefined` is a read or a
-- write behind the buffer, `killed` a write to a connection that the peer has closed (SIGPIPE).
pub data Ending : Type 0 where
  ended undefined killed going : Ending

-- What is printed of a text that was read, and what is given to write.
pub data Event : Type 0 where
  show send : Bytes → Event

abbrev pub Log : Type 0
Log = Ending × List Event

-- What the calls of one round give: read, with `none` for an error and no byte for the end of the
-- connection, and whether the write does not kill the program.
pub record Round : Type 0 where
  pub read : Option Bytes
  pub delivered : Bool

abbrev pub also : Event → Log → Log
also e (ending, events) = (ending, e ∷ events)

abbrev pub written : Bool → Bytes → Log → Log
written false bytes rest = (Ending.killed, [])
written true bytes rest = also (send bytes) rest

abbrev pub exit_word : Bytes
exit_word = codes "exit"

abbrev pub end_if : Bool → Log → Log
end_if true rest = (Ending.ended, [])
end_if false rest = rest

-- `hello`
abbrev pub reply : Bytes → Bytes
reply text = codes "auto feedback " ++ text

-- A round of the servers with a thread or a process for each connection.
unfoldable pub answer : Option Bytes → Bool → Log → Log
answer none delivered rest = (Ending.undefined, [])
answer (some text) delivered rest =
    also (show text) (written delivered (reply text) (end_if (contains exit_word text) rest))

unfoldable pub auto_communication : List Round → Log
auto_communication [] = (Ending.going, [])
auto_communication (r ∷ rs) =
    answer (string_of (read_into r.read)) r.delivered (auto_communication rs)

unfoldable pub heard : Option Bytes → Log → Log
heard none rest = (Ending.undefined, [])
heard (some text) rest = also (show text) (end_if (contains exit_word text) rest)

-- A round of the client; `next` are those behind it.
unfoldable pub ask : (Bytes → Log) → Round → Option (Bytes × Bytes) → Log
ask next r none = (Ending.undefined, [])
ask next r (some (line, input)) =
    written r.delivered (buffer line) (heard (string_of (read_into r.read)) (next input))

unfoldable pub client_communication : List Round → Bytes → Log
client_communication [] input = (Ending.going, [])
client_communication (r ∷ rs) input = ask (client_communication rs) r (type_line max_bytes input)

-- A round of the server whose answers are typed.
unfoldable pub typed : (Bytes → Log) → Bool → Option (Bytes × Bytes) → Log
typed next delivered none = (Ending.undefined, [])
typed next delivered (some (line, input)) =
    written delivered (buffer line) (end_if (starts_with exit_word (buffer line)) (next input))

unfoldable pub respond : (Bytes → Log) → Bool → Bytes → Option Bytes → Log
respond next delivered input none = (Ending.undefined, [])
respond next delivered input (some text) =
    also (show text) (typed next delivered (type_line max_bytes input))

unfoldable pub typing_communication : List Round → Bytes → Log
typing_communication [] input = (Ending.going, [])
typing_communication (r ∷ rs) input =
    respond (typing_communication rs) r.delivered input (string_of (read_into r.read))
