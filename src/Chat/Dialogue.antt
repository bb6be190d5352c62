-- ===== src/Chat/Dialogue.antt =====
-- What a client and a server that answers by itself say to each other.
use cpp_custom.Prelude.{
  Bool, Bytes, List, [], ◌∷◌, ◌++◌, map, true, some, ℕ, zero, suc, ◌-◌, ◌≤◌, ◌<◌, ◌≡◌, refl, ap,
  ◌∙◌, arith, length, append-nil, take, length-append, length-replicate,
}
use cpp_custom.Net.Echo.{NoZero}
use cpp_custom.Chat.Text.{zeros, buffer, read_into, string_of, contains}
use cpp_custom.Chat.Lines.{NoNewline, string_of-buffer}
use cpp_custom.Chat.Talk.{Ending, Event, Log, Round, exit_word, end_if, reply, show, send}

-- A line with its end, as it is typed.
abbrev pub with_end : Bytes → Bytes
with_end line = line ++ 10 ∷ []

-- A line whose answer fits the client's buffer: 14 bytes before it, its end and a zero behind it.
abbrev pub Short : Bytes → Type 0
Short line = NoZero line × NoNewline line × (length line < 65)

abbrev pub AllShort : List Bytes → Type 0
AllShort [] = Unit {0}
AllShort (line ∷ lines) = Short line × AllShort lines

abbrev pub input_of : List Bytes → Bytes
input_of [] = []
input_of (line ∷ lines) = line ++ 10 ∷ input_of lines

-- The rounds of one side, in which it reads whole what the other side sends.
abbrev pub whole : Bytes → Round
whole bytes = record { read = some bytes; delivered = true }

abbrev pub server_rounds : List Bytes → List Round
server_rounds lines = map (λ line. whole (buffer (with_end line))) lines

abbrev pub client_rounds : List Bytes → List Round
client_rounds lines = map (λ line. whole (reply (with_end line))) lines

-- What each side does until its last round.
abbrev pub before : List Event → Log → Log
before events (ending, later) = (ending, events ++ later)

abbrev pub until : {A : Type 0} → (A → Bool) → (A → List Event) → List A → Log
until last round [] = (Ending.going, [])
until last round (x ∷ xs) = before (round x) (end_if (last x) (until last round xs))

-- The line has `exit` in it.
abbrev pub is_last : Bytes → Bool
is_last line = contains exit_word (with_end line)

abbrev pub server_round : Bytes → List Event
server_round line = show (with_end line) ∷ send (reply (with_end line)) ∷ []

abbrev pub client_round : Bytes → List Event
client_round line = send (buffer (with_end line)) ∷ show (reply (with_end line)) ∷ []

pub NoZero-append : (a b : Bytes) → NoZero a → NoZero b → NoZero (a ++ b)
NoZero-append [] b h g = g
NoZero-append (c ∷ cs) b h g = (h.0, NoZero-append cs b h.1 g)

take-all : (n : ℕ) (bytes : Bytes) → length bytes ≤ n → take n bytes ≡ bytes
take-all zero [] h = refl
take-all zero (c ∷ cs) h = absurd (omega arith)
take-all (suc n) [] h = refl
take-all (suc n) (c ∷ cs) h = ap (λ l. c ∷ l) (take-all n cs (omega arith))

pub length-buffer : (bytes : Bytes) → length bytes ≤ 80 → length (buffer bytes) ≡ 80
unfolding buffer
length-buffer bytes h = omega (
  arith,
  length-append bytes (zeros (80 - length bytes)),
  length-replicate {A = ℕ} (80 - length bytes) 0,
)

pub buffer-full : (bytes : Bytes) → length bytes ≡ 80 → buffer bytes ≡ bytes
unfolding buffer
buffer-full bytes h =
    let none_left : 80 - length bytes ≡ 0 = omega arith in
    ap (λ n. bytes ++ zeros n) none_left ∙ append-nil bytes

-- A buffer that is sent whole is read back as the text that was put into it.
pub read-buffer :
    (text : Bytes)
    → NoZero text
    → length text < 80
    → string_of (read_into (some (buffer text))) ≡ some text
unfolding read_into
read-buffer text h lt =
    let full = length-buffer text (omega arith) in
    ap (λ b. string_of (buffer b)) (take-all 80 (buffer text) (omega (arith, full)))
    ∙ (ap string_of (buffer-full (buffer text) full) ∙ string_of-buffer text h lt)

module _ (line : Bytes) (h : Short line) where
  length-with_end : length (with_end line) < 66
  length-with_end = omega (arith, length-append line (10 ∷ []), h.2)

  with_end-NoZero : NoZero (with_end line)
  with_end-NoZero = NoZero-append line (10 ∷ []) h.0 (refl, tt)

  pub read-line : string_of (read_into (some (buffer (with_end line)))) ≡ some (with_end line)
  read-line = read-buffer (with_end line) with_end-NoZero (omega (arith, length-with_end))
