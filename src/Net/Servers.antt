-- ===== src/Net/Servers.antt =====
-- The epoll server with one client: its theorems at concrete inputs.
use cpp_custom.Prelude.{Bytes, List, [], ◌∷◌, true, false, some, ◌≡◌, refl, ◌≢◌, ◌⊎◌, arith, codes}
use cpp_custom.Prelude.Int.{pos}
use cpp_custom.Net.Epoll.{
  Read, Event, Kernel, setnonblocking, epoll_ctl_add, serve_all, run, start, bytes, nothing,
  waiting, waits,
}
use cpp_custom.Net.Drain.{holds, more}
use cpp_custom.Net.Blocking.{Blocks}
use cpp_custom.Net.Held.{serve_all-waits}

abbrev next_chunk : Read → List Bytes → Read × List Bytes
next_chunk last [] = (last, [])
next_chunk last (b ∷ bs) = (bytes b, bs)

-- The world is what the client has sent and the server has not read; `last` is what read gives then.
abbrev kernel : Read → Kernel
kernel last = record {
  World = List Bytes;
  socket = λ w. (some 3, w);
  bind = λ sock w. w;
  listen = λ sock w. w;
  create = λ w. w;
  get_fd = λ sock w. (pos 0, w);
  or_nonblock = λ flags. flags;
  set_fd = λ sock flags w. (true, w);
  watch = λ sock interest w. (true, w);
  wait = λ w. ([], w);
  accept = λ sock w. (some 5, w);
  greet = λ w. w;
  read = λ fd w. next_chunk last w;
  again = λ w. false;
  print = λ text w. w;
  write = λ fd b w. w;
  unwatch = λ fd w. w;
  close = λ fd w. w;
}

next_chunk-waiting : (w u : List Bytes) → next_chunk waiting w ≢ (nothing, u)
next_chunk-waiting [] u e = cc
next_chunk-waiting (b ∷ bs) u e = cc

-- The client stays.
abbrev blocks : Blocks (kernel waiting)
blocks = record {
  AllBlock = λ w. Unit {0};
  has_ended = λ fd w. ⊥;
  again_lem = λ w h. refl;
  socket_lem = λ w h. tt;
  bind_lem = λ s w h. tt;
  listen_lem = λ s w h. tt;
  create_lem = λ w h. tt;
  get_fd_lem = λ s w h. tt;
  set_fd_lem = λ s flags w h. tt;
  watch_lem = λ s i w h. tt;
  wait_lem = λ w h. tt;
  accept_lem = λ s w h. tt;
  greet_lem = λ w h. tt;
  read_lem = λ fd w h. tt;
  print_lem = λ text w h. tt;
  write_lem = λ fd b w h. tt;
  unwatch_lem = λ fd w h. tt;
  close_lem = λ fd w h. tt;
  ended_lem = λ fd w u h e. next_chunk-waiting w u e;
}

abbrev two_chunks : List Bytes
two_chunks = codes "hello" ∷ codes "you" ∷ []

abbrev readable : Event
readable = record { fd = 5; readable = true; hung_up = false }

abbrev other : Event
other = record { fd = 3; readable = true; hung_up = false }

serve_all-waits_example :
    (serve_all (kernel waiting) 3 (some 3) (readable ∷ other ∷ []) two_chunks ≡ waits)
    ⊎ blocks.has_ended 5 []
unfolding start setnonblocking epoll_ctl_add run serve_all
serve_all-waits_example =
    serve_all-waits (kernel waiting) blocks 3 2 two_chunks two_chunks two_chunks two_chunks []
      (some 3) [] [] [] (other ∷ []) readable two_chunks waiting tt refl refl refl
      (refl, refl, refl) (omega arith)
      (
        ((refl, (refl, (refl, (refl, (refl, tt))))), omega arith),
        (((refl, (refl, (refl, tt))), omega arith), tt),
      )
      (more refl refl (more refl refl (holds refl)))
