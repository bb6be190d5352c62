-- ===== src/Chat/Examples.antt =====
-- The programs that talk: their theorems at concrete inputs.
use cpp_custom.Prelude.{
  Bytes, List, [], ◌∷◌, map, true, false, some, ◌≡◌, refl, arith, codes, replicate,
}
use cpp_custom.Chat.Text.{buffer, read_into, prepend, string_of, starts_with, type_line}
use cpp_custom.Chat.Talk.{
  Ending, Round, auto_communication, client_communication, typed, respond, typing_communication,
  show, send,
}
use cpp_custom.Chat.Dialogue.{input_of, whole, until}
use cpp_custom.Chat.Typing.{
  asked_of, said_of, sent_line, server_events, client_events, begins_exit, has_exit, typing-both,
}
use cpp_custom.Chat.Ends.{over, feedback_only, repeat, communication-over}
use cpp_custom.Chat.Start.{Calls, set_up, close_after, typing_main, closes, exit_failure}

abbrev lines : List Bytes
lines = codes "hi" ∷ codes "exit" ∷ codes "no" ∷ []

abbrev pairs : List (Bytes × Bytes)
pairs = (codes "hi", codes "ho") ∷ (codes "so", codes "exit") ∷ []

typing-both_example :
    (typing_communication
        (map (λ p. whole (sent_line (asked_of p))) pairs)
        (input_of (map said_of pairs))
      ≡ until begins_exit server_events pairs)
    × (client_communication
          (map (λ p. whole (sent_line (said_of p))) pairs)
          (input_of (map asked_of pairs))
        ≡ until has_exit client_events pairs)
typing-both_example = typing-both pairs (
  ((refl, (refl, tt)), (refl, (refl, tt)), omega arith),
  ((refl, (refl, tt)), (refl, (refl, tt)), omega arith),
  (
    ((refl, (refl, tt)), (refl, (refl, tt)), omega arith),
    ((refl, (refl, (refl, (refl, tt)))), (refl, (refl, (refl, (refl, tt)))), omega arith),
    tt,
  ),
)

communication-over_example :
    auto_communication (replicate 3 (over false)) ≡ (Ending.going, repeat 3 feedback_only)
communication-over_example = communication-over 3 false

-- The set-up and the closing of the sockets around the loop.
abbrev calls : Calls
calls = record {
  socket = some 3;
  bound = true;
  listens = true;
  accepted = some 4;
  connected = true;
}

typing_main_ends :
    typing_main calls (whole (codes "hi") ∷ []) (codes "exit\n")
    ≡ closes (4 ∷ 3 ∷ []) (Ending.ended, show (codes "hi") ∷ send (buffer (codes "exit\n")) ∷ [])
unfolding typing_main set_up close_after typing_communication respond typed type_line string_of
    read_into buffer starts_with prepend
typing_main_ends = refl

typing_main_fails :
    (rounds : List Round) (input : Bytes)
    → typing_main (record calls { bound = false }) rounds input ≡ exit_failure
unfolding typing_main set_up
typing_main_fails rounds input = refl
