-- ===== src/Chat/Ends.antt =====
-- The boundaries of a talk: a connection that has ended, and texts that fill a buffer.
use cpp_custom.Prelude.{
  Bool, Bytes, List, [], ◌∷◌, ◌++◌, true, false, none, some, ℕ, zero, suc, ◌≤◌, ◌≡◌, refl, ap, ◌∙◌,
  arith, if◌then◌else◌, length, replicate, take, length-take,
}
use cpp_custom.Net.Echo.{NoZero}
use cpp_custom.Chat.Text.{buffer, read_into, string_of, starts_with, contains}
use cpp_custom.Chat.Lines.{NoNewline, string_of-full, type_line-long}
use cpp_custom.Chat.Talk.{
  Ending, Event, Round, reply, answer, auto_communication, ask, client_communication, typed,
  respond, typing_communication, show, send,
}
use cpp_custom.Chat.Dialogue.{buffer-full}

-- A round in which read fails or finds the end of the connection.
abbrev pub over : Bool → Round
over failed = record { read = if failed then none else some []; delivered = true }

abbrev pub feedback_only : List Event
feedback_only = show [] ∷ send (reply []) ∷ []

abbrev pub repeat : ℕ → List Event → List Event
repeat zero events = []
repeat (suc n) events = events ++ repeat n events

over-empty : (failed : Bool) → string_of (read_into (over failed).read) ≡ some []
unfolding string_of read_into buffer
over-empty true = refl
over-empty false = refl

-- After the end of the connection, or an error, the loop of the servers with threads or processes
-- never ends: for every number of rounds it has sent its greeting in each one and goes on, as long
-- as the writes do not kill it.
pub communication-over :
    (n : ℕ) (failed : Bool)
    → auto_communication (replicate n (over failed)) ≡ (Ending.going, repeat n feedback_only)
unfolding auto_communication answer contains starts_with
communication-over zero failed = refl
communication-over (suc n) failed = rw (over-empty failed, communication-over n failed) refl

take-NoZero : (n : ℕ) (text : Bytes) → NoZero text → NoZero (take n text)
take-NoZero zero text h = tt
take-NoZero (suc n) [] h = tt
take-NoZero (suc n) (c ∷ cs) h = (h.0, take-NoZero n cs h.1)

read-long :
    (text : Bytes) → NoZero text → 80 ≤ length text → string_of (read_into (some text)) ≡ none
unfolding read_into
read-long text h le =
    ap string_of (buffer-full (take 80 text) (omega (arith, length-take 80 text)))
    ∙ string_of-full (take 80 text) (take-NoZero 80 text h)

-- 80 bytes or more, none of them zero, overrun the buffer of each program in the round in which
-- they are read, and a line of 80 bytes or more in the round in which it is typed.
pub communication-long :
    (text line rest : Bytes) (delivered : Bool) (rs : List Round)
    → NoZero text
    → 80 ≤ length text
    → NoNewline line
    → 80 ≤ length line
    → (auto_communication (record { read = some text; delivered = delivered } ∷ rs)
        ≡ (Ending.undefined, []))
      × (typing_communication (record { read = some text; delivered = delivered } ∷ rs) rest
          ≡ (Ending.undefined, []))
      × (typing_communication (over false ∷ rs) (line ++ rest) ≡ (Ending.undefined, show [] ∷ []))
      × ((r : Round) → client_communication (r ∷ rs) (line ++ rest) ≡ (Ending.undefined, []))
unfolding auto_communication typing_communication client_communication answer respond typed ask
communication-long text line rest delivered rs h le g ge =
    let full = read-long text h le in
    let long = type_line-long 80 line rest g ge in
    (rw full refl, rw full refl, rw (over-empty false, long) refl, λ r. rw long refl)
