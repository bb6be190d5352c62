-- ===== src/Chat/Children.antt =====
-- The server with processes and one connection: its theorem at a concrete input.
use cpp_custom.Prelude.{[], ◌∷◌, ◌≤◌, ◌≡◌, refl, arith, length}
use cpp_custom.Chat.Processes.{Server, Step, Reach, accepting, closed, accept, fork, begin, later}
use cpp_custom.Chat.Forks.{sockets, sockets-forked}

abbrev one_closed : Server
one_closed = record { main = accepting; conn = 4; children = closed 4 ∷ []; open_sockets = 4 ∷ [] }

one_served : Reach 9 one_closed
one_served =
    later (later (later begin (accept 4 refl refl (omega arith))) (fork refl)) (Step.close 0 4 refl)

sockets-forked_example : (sockets (closed 4 ∷ []) ≡ 4 ∷ []) × (length one_closed.children ≤ 9)
sockets-forked_example = sockets-forked one_served refl
