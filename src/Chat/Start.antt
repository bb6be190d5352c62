-- ===== src/Chat/Start.antt =====
-- socket/tcp-socket-client.cpp, tcp-socket-server.cpp, tcp-socket-server-thread.cpp and
-- tcp-socket-server-process.cpp: `main` before its loop, and whole where it has none.
use cpp_custom.Prelude.{Bool, Bytes, List, Option, [], ◌∷◌, true, false, none, some, ℕ}
use cpp_custom.Chat.Talk.{Ending, Log, Round, client_communication, typing_communication}

-- What the calls of socket, bind, listen and accept, or connect, give; `none` is -1.
pub record Calls : Type 0 where
  pub socket : Option ℕ
  pub bound : Bool
  pub listens : Bool
  pub accepted : Option ℕ
  pub connected : Bool

-- How `main` ends: by exit with EXIT_FAILURE, in its loop, or with these sockets closed.
pub data Main : Type 0 where
  exit_failure : Main
  in_loop : Log → Main
  closes : List ℕ → Log → Main

abbrev pub and_then {ℓ} : {A : Type ℓ} → Option A → (A → Main) → Main
and_then none next = exit_failure
and_then (some a) next = next a

abbrev pub require : Bool → Main → Main
require true next = next
require false next = exit_failure

-- The listening socket.
unfoldable pub set_up : Calls → (ℕ → Main) → Main
set_up calls next =
    and_then calls.socket λ fd. require calls.bound (require calls.listens (next fd))

-- Only a loop that has ended is left, and its sockets closed.
unfoldable pub close_after : List ℕ → Log → Main
close_after fds (Ending.ended, events) = closes fds (Ending.ended, events)
close_after fds log = in_loop log

unfoldable pub typing_main : Calls → List Round → Bytes → Main
typing_main calls rounds input = set_up calls λ listening.
    and_then calls.accepted
      λ conn. close_after (conn ∷ listening ∷ []) (typing_communication rounds input)

-- The socket is not tested: connect fails for -1.
unfoldable pub client_main : Calls → List Round → Bytes → Main
client_main calls rounds input =
    require calls.connected
      (and_then calls.socket λ fd. close_after (fd ∷ []) (client_communication rounds input))
