-- ===== src/Chat/Typing.antt =====
-- What a client and the server whose answers are typed say to each other.
use cpp_custom.Prelude.{
  Bool, Bytes, List, [], ◌∷◌, ◌++◌, map, true, some, ℕ, zero, suc, ◌-◌, ◌<◌, ◌≡◌, refl, arith,
  length, length-append,
}
use cpp_custom.Net.Echo.{NoZero}
use cpp_custom.Chat.Text.{zeros, buffer, read_into, string_of, starts_with, contains}
use cpp_custom.Chat.Lines.{NoNewline, type_line-line}
use cpp_custom.Chat.Talk.{
  Event, exit_word, heard, ask, client_communication, typed, respond, typing_communication, show,
  send,
}
use cpp_custom.Chat.Dialogue.{with_end, input_of, whole, until, NoZero-append, read-buffer}

-- What is typed on the client's side, and on the server's side as an answer.
abbrev pub Fits : Bytes → Type 0
Fits line = NoZero line × NoNewline line × (length line < 79)

abbrev pub AllFit : List (Bytes × Bytes) → Type 0
AllFit [] = Unit {0}
AllFit ((asked, said) ∷ lines) = Fits asked × Fits said × AllFit lines

abbrev pub asked_of : Bytes × Bytes → Bytes
asked_of (asked, said) = asked

abbrev pub said_of : Bytes × Bytes → Bytes
said_of (asked, said) = said

abbrev pub sent_line : Bytes → Bytes
sent_line line = buffer (with_end line)

abbrev pub server_events : Bytes × Bytes → List Event
server_events (asked, said) = show (with_end asked) ∷ send (sent_line said) ∷ []

abbrev pub client_events : Bytes × Bytes → List Event
client_events (asked, said) = send (sent_line asked) ∷ show (with_end said) ∷ []

-- Where the server's loop ends, and where the client's does.
abbrev pub begins_exit : Bytes × Bytes → Bool
begins_exit (asked, said) = starts_with exit_word (with_end said)

abbrev pub has_exit : Bytes × Bytes → Bool
has_exit (asked, said) = contains exit_word (with_end said)

-- A word without zeros is not found in the zeros behind a text.
starts_with-append :
    (word text : Bytes) (n : ℕ)
    → NoZero word
    → starts_with word (text ++ zeros n) ≡ starts_with word text
unfolding starts_with
starts_with-append [] text n h = refl
starts_with-append (c ∷ cs) [] zero h = refl
starts_with-append (c ∷ cs) [] (suc n) h = rw h.0 refl
starts_with-append (c ∷ cs) (d ∷ text) n h = rw (starts_with-append cs text n h.1) refl

starts_with-buffer :
    (text : Bytes) → starts_with exit_word (buffer text) ≡ starts_with exit_word text
unfolding buffer
starts_with-buffer text =
    starts_with-append exit_word text (80 - length text) (refl, (refl, (refl, (refl, tt))))

module _ (line : Bytes) (h : Fits line) where
  length-with_end : length (with_end line) < 80
  length-with_end = omega (arith, length-append line (10 ∷ []), h.2)

  read-sent_line : string_of (read_into (some (sent_line line))) ≡ some (with_end line)
  read-sent_line =
      read-buffer (with_end line) (NoZero-append line (10 ∷ []) h.0 (refl, tt)) length-with_end

-- Lines of less than 79 bytes, none of them zero: if each side reads what the other one sends whole
-- and the connection stays, each side prints just what was typed on the other one. The server ends
-- after its first line that begins with `exit`, the client after the first one that has it anywhere.
pub typing-both :
    (lines : List (Bytes × Bytes))
    → AllFit lines
    → (typing_communication
          (map (λ p. whole (sent_line (asked_of p))) lines)
          (input_of (map said_of lines))
        ≡ until begins_exit server_events lines)
      × (client_communication
            (map (λ p. whole (sent_line (said_of p))) lines)
            (input_of (map asked_of lines))
          ≡ until has_exit client_events lines)
unfolding typing_communication client_communication respond typed ask heard
typing-both [] h = (refl, refl)
typing-both ((asked, said) ∷ lines) h =
    let (server, client) = typing-both lines h.2 in
    let ask_line =
      type_line-line 80 asked (input_of (map asked_of lines)) h.0.1 (omega (arith, h.0.2)) in
    let say_line =
      type_line-line 80 said (input_of (map said_of lines)) h.1.1 (omega (arith, h.1.2)) in
    (
      rw (read-sent_line asked h.0, say_line, starts_with-buffer (with_end said), server) refl,
      rw (ask_line, read-sent_line said h.1, client) refl,
    )

-- Whatever ends the server ends the client.
pub begins_exit-has_exit : (p : Bytes × Bytes) → begins_exit p ≡ true → has_exit p ≡ true
unfolding contains
begins_exit-has_exit (asked, []) h = ground arith
begins_exit-has_exit (asked, c ∷ cs) h = ground arith
