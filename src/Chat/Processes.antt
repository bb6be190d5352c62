-- ===== src/Chat/Processes.antt =====
-- socket/tcp-socket-server-process.cpp: the loop of `main` and the processes that it forks.
use cpp_custom.Prelude.{List, [], ◌∷◌, false, some, ℕ, ◌<◌, ◌≡◌, length, get_elem?, set}
use cpp_custom.Net.Select.{member}

-- Where the parent stands: before accept, before fork, or after exit.
pub data Main : Type 0 where
  accepting forking exited : Main

-- A child on its copy of conn_scokfd: in `communication`, behind close and exit, or killed in a
-- write to a connection that the peer has closed.
pub data Child : Type 0 where
  talks closed killed : ℕ → Child

-- `conn` is the parent's conn_scokfd, `open_sockets` the parent's sockets from accept, which it does
-- not close. The newest child and socket stand first.
pub record Server : Type 0 where
  pub main : Main
  pub conn : ℕ
  pub children : List Child
  pub open_sockets : List ℕ

abbrev pub start : Server
start = record { main = accepting; conn = 0; children = []; open_sockets = [] }

-- The kernel gives the parent a socket that is not open in it, and at most `limit` of them. The
-- children outlive the parent.
pub data Step (limit : ℕ) (s : Server) : Server → Type 0 where
  accept :
      (fd : ℕ)
      → s.main ≡ accepting
      → member fd s.open_sockets ≡ false
      → length s.open_sockets < limit
      → Step limit s (record s { main = forking; conn = fd; open_sockets = fd ∷ s.open_sockets })
  accept_fails : s.main ≡ accepting → Step limit s (record s { main = exited })
  fork :
      s.main ≡ forking
      → Step limit s (record s { main = accepting; children = talks s.conn ∷ s.children })
  fork_fails : s.main ≡ forking → Step limit s (record s { main = exited })
  close :
      (i fd : ℕ)
      → get_elem? s.children i ≡ some (talks fd)
      → Step limit s (record s { children = set s.children i (closed fd) })
  kill :
      (i fd : ℕ)
      → get_elem? s.children i ≡ some (talks fd)
      → Step limit s (record s { children = set s.children i (killed fd) })

pub data Reach (limit : ℕ) : Server → Type 0 where
  begin : Reach limit start
  later : {s t : Server} → Reach limit s → Step limit s t → Reach limit t
