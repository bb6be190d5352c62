-- ===== src/Net/Clients.antt =====
-- The kqueue server over a kernel that keeps the open sockets: its theorems at concrete inputs.
use cpp_custom.Prelude.{
  Bool, List, Option, [], ◌∷◌, true, false, ◌&&◌, none, some, ℕ, ◌≡◌, refl, ◌==◌, if◌then◌else◌,
  codes,
}
use cpp_custom.Net.Kqueue.{Change, Kernel, handle_read, add, delete, end_of_file, go}
use cpp_custom.Net.Watch.{chunks, handle_read-chunks}

abbrev none_at : Option ℕ → Bool
none_at none = true
none_at (some n) = false

abbrev socket_of : Change → ℕ
socket_of (add fd f) = fd
socket_of (delete fd f) = fd

abbrev all_open : (ℕ → Bool) → List Change → Bool
all_open w [] = true
all_open w (c ∷ cs) = w (socket_of c) && all_open w cs

-- The world tells which sockets are open. Every socket has one chunk to read and then its end.
abbrev kernel : Kernel
kernel = record {
  World = ℕ → Bool;
  change = λ cs w. (all_open w cs, w);
  reads = λ fd w. (chunks ((codes "hello", 4) ∷ []) end_of_file, w);
  accept = λ fd w. (some 9, w);
  named = λ fd w. true;
  get_flags = λ fd w. (some 0, w);
  with_nonblock = λ flags. flags;
  set_flags = λ fd flags w. (true, w);
  close = λ fd w x. if x == fd then false else w x;
}

abbrev all : ℕ → Bool
all fd = true

handle_read-chunks_example : handle_read kernel 5 all ≡ go (kernel.close 5 all, codes "hello" ∷ [])
handle_read-chunks_example = handle_read-chunks kernel 5 all all ((codes "hello", 4) ∷ []) true refl
