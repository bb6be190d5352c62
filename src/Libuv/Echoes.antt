-- ===== src/Libuv/Echoes.antt =====
-- Two clients of the echo server.
use cpp_custom.Prelude.{List, [], ◌∷◌, true, some, ◌≡◌, codes}
use cpp_custom.Libuv.EchoServer.{Server, Read, Event, connected, read, wrote}
use cpp_custom.Libuv.Buffers.{start_server, run_events, buffers, run_events-Owned}

-- Two reads of one client, between them the end of another; then the first write is done.
abbrev session : List Event
session =
    connected 5 true true
    ∷ connected 6 true true
    ∷ read 5 (Read.received b'a' (codes "b"))
    ∷ read 6 Read.failed
    ∷ read 5 (Read.received b'c' [])
    ∷ wrote 0
    ∷ []

run_events-Owned_example :
    (s : Server) × (run_events session start_server ≡ some s)
    × (s.live ≡ buffers s.pending)
    × (s.written ≡ (5, codes "ab") ∷ (5, codes "c") ∷ [])
run_events-Owned_example = run_events-Owned session
