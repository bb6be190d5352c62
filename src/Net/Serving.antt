-- ===== src/Net/Serving.antt =====
-- socket/tcp-socket-server-select.cpp: main before its loop, and the loop.
use cpp_custom.Prelude.{Bool, List, Option, [], ◌∷◌, ◌++◌, true, false, not, none, some, ℕ, ◌==◌}
use cpp_custom.Net.Select.{Answers, Action, Turn, ◌>>=◌, no_clients, turn, done, exits}

-- What socket, setsockopt, bind and listen give. A socket that is -1 is `none`: setsockopt fails then.
pub record Calls : Type 0 where
  pub socket : Option ℕ
  pub options : Bool
  pub bound : Bool
  pub listens : Bool

abbrev pub exit_unless : Bool → Turn ℕ → Turn ℕ
exit_unless true next = next
exit_unless false next = exits

unfoldable pub set_up : Calls → Option ℕ → Turn ℕ
set_up calls none = exits
set_up calls (some fd) =
    exit_unless (not (fd == 0))
      (exit_unless calls.options (exit_unless calls.bound (exit_unless calls.listens (done fd))))

-- Turns of the loop, with what they do in all.
unfoldable pub run : List Answers → ℕ → List ℕ → Turn (List ℕ × List Action)
run [] master table = done (table, [])
run (a ∷ as_next) master table = do
  (table', out) ← turn a master table
  (table'', outs) ← run as_next master table'
  done (table'', out ++ outs)

unfoldable pub main : Calls → List Answers → Turn (List ℕ × List Action)
main calls answers = set_up calls calls.socket >>= λ master. run answers master no_clients
