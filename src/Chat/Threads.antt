-- ===== src/Chat/Threads.antt =====
-- socket/tcp-socket-server-thread.cpp: the loop of `main` and the threads that it starts, a call or
-- a shared access at a time.
use cpp_custom.Prelude.{List, [], ◌∷◌, false, some, ℕ, ◌<◌, ◌≡◌, ◌≢◌, length, get_elem?, set}
use cpp_custom.Net.Select.{member}

-- Where `main` stands: before accept, before pthread_create, or after exit, which ends the threads.
pub data Main : Type 0 where
  accepting creating exited : Main

-- A thread: before it reads conn_scokfd, in `communication` on a socket, and after it.
pub data Thread : Type 0 where
  created : Thread
  talks finished : ℕ → Thread

-- `slot` is conn_scokfd, of which every thread is given the address: each turn of the loop has it in
-- the same place. `open` are the sockets that accept has given; nothing closes them. The newest
-- thread and socket stand first.
pub record Server : Type 0 where
  pub main : Main
  pub slot : ℕ
  pub threads : List Thread
  pub open_sockets : List ℕ

abbrev pub start : Server
start = record { main = accepting; slot = 0; threads = []; open_sockets = [] }

-- The kernel gives a socket that is not open, and at most `limit` of them. A write to a connection
-- that the peer has closed kills the server.
pub data Step (limit : ℕ) (s : Server) : Server → Type 0 where
  accept :
      (fd : ℕ)
      → s.main ≡ accepting
      → member fd s.open_sockets ≡ false
      → length s.open_sockets < limit
      → Step limit s (record s { main = creating; slot = fd; open_sockets = fd ∷ s.open_sockets })
  accept_fails : s.main ≡ accepting → Step limit s (record s { main = exited })
  create :
      s.main ≡ creating
      → Step limit s (record s { main = accepting; threads = created ∷ s.threads })
  create_fails : s.main ≡ creating → Step limit s (record s { main = exited })
  begin :
      (i : ℕ)
      → s.main ≢ exited
      → get_elem? s.threads i ≡ some created
      → Step limit s (record s { threads = set s.threads i (talks s.slot) })
  finish :
      (i fd : ℕ)
      → s.main ≢ exited
      → get_elem? s.threads i ≡ some (talks fd)
      → Step limit s (record s { threads = set s.threads i (finished fd) })
  killed :
      (i fd : ℕ)
      → get_elem? s.threads i ≡ some (talks fd)
      → Step limit s (record s { main = exited })

-- Any number of steps.
pub data Steps (limit : ℕ) (s : Server) : Server → Type 0 where
  here : Steps limit s s
  later : {t u : Server} → Steps limit s t → Step limit t u → Steps limit s u
