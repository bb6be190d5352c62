-- ===== src/Chat/Schedules.antt =====
-- The server with threads in two orders of its steps: its theorems at concrete inputs.
use cpp_custom.Prelude.{[], ◌∷◌, ◌≡◌, refl, arith}
use cpp_custom.Chat.Threads.{
  Server, accepting, creating, created, talks, accept, create, begin, here, later,
}
use cpp_custom.Chat.Races.{Unserved, accept-Unserved}
use cpp_custom.Chat.Turns.{sockets, InTurn, sockets-accepted, first, next}

-- The thread of the first connection, on socket 4, has not begun when the second one is accepted.
abbrev one_created : Server
one_created = record { main = accepting; slot = 4; threads = created ∷ []; open_sockets = 4 ∷ [] }

abbrev two_accepted : Server
two_accepted = record one_created { main = creating; slot = 5; open_sockets = 5 ∷ 4 ∷ [] }

abbrev two_created : Server
two_created = record two_accepted { main = accepting; threads = created ∷ created ∷ [] }

abbrev both_on_second : Server
both_on_second = record two_created { threads = talks 5 ∷ talks 5 ∷ [] }

accept-Unserved_example : Unserved 4 both_on_second
accept-Unserved_example =
    accept-Unserved {limit = 9} one_created both_on_second 5 refl refl (refl, tt) refl
      (later (later (later here (create refl)) (begin 1 (λ e. cc e) refl))
        (begin 0 (λ e. cc e) refl))

-- The first connection is accepted, and its thread begins.
abbrev one_talks : Server
one_talks = record one_created { threads = talks 4 ∷ [] }

in_turn : InTurn 9 one_talks
in_turn =
    next
      (next (next first (λ e. tt) (accept 4 refl refl (omega arith))) (λ e. absurd (cc e))
        (create refl))
      (λ e. absurd (cc e)) (begin 0 (λ e. cc e) refl)

sockets-accepted_example : sockets 4 (talks 4 ∷ []) ≡ 4 ∷ []
sockets-accepted_example = sockets-accepted in_turn refl
