-- ===== src/Net/Kqueue.antt =====
-- socket/tcp-socket-server-kqueue.cpp: loop_once and the handlers that it calls.
use cpp_custom.Prelude.{
  Bool, Bytes, List, Option, [], ◌∷◌, ◌++◌, true, false, not, none, some, ℕ, zero, suc, ◌==◌,
  if◌then◌else◌,
}

pub data Filter : Type 0 where
  reading writing : Filter

-- EV_ADD with EV_ENABLE, and EV_DELETE.
pub data Change : Type 0 where
  add : ℕ → Filter → Change
  delete : ℕ → Filter → Change

-- What a call of read gives on a socket: bytes, with the result of the write that follows (`none`
-- is -1), the end of the connection, EAGAIN or EWOULDBLOCK, or another error.
pub data Read : Type 0 where
  bytes : Bytes → Option ℕ → Read
  end_of_file : Read
  would_block : Read
  error : Read

-- The kernel, with the sockets and the filters that it watches. `change` is kevent with a list of
-- changes and tells whether it succeeds; `reads` is what the calls of read give in turn, the last
-- of which is no bytes; `accept` is the new socket, or `none`, and `named` whether getpeername
-- succeeds. `get_flags` and `set_flags` are fcntl, and `with_nonblock` is the flags with O_NONBLOCK.
pub record Kernel : Type 1 where
  pub World : Type 0
  pub change : List Change → World → Bool × World
  pub reads : ℕ → World → List Read × World
  pub accept : ℕ → World → Option ℕ × World
  pub named : ℕ → World → Bool
  pub get_flags : ℕ → World → Option ℕ × World
  pub with_nonblock : ℕ → ℕ
  pub set_flags : ℕ → ℕ → World → Bool × World
  pub close : ℕ → World → World

-- A call goes on, with the world, or ends the program.
pub data Go {ℓ} (A : Type ℓ) : Type ℓ where
  go : A → Go A
  exits : Go A
  out_of_reads : Go A

infixl 5 ◌>>=◌
abbrev pub ◌>>=◌ {ℓ κ} : {A : Type ℓ} {B : Type κ} → Go A → (A → Go B) → Go B
go a >>= f = f a
exits >>= f = exits
out_of_reads >>= f = out_of_reads

-- exit_if
abbrev pub exit_if {ℓ} : {A : Type ℓ} → Bool → A → Go A
exit_if true a = exits
exit_if false a = go a

-- The bits kReadEvent and kWriteEvent.
pub record Events : Type 0 where
  pub read : Bool
  pub write : Bool

abbrev pub one : Bool → Bool → ℕ → Filter → List Change
one true modify fd f = add fd f ∷ []
one false true fd f = delete fd f ∷ []
one false false fd f = []

-- The changes that updateEvents asks for.
unfoldable pub changes : ℕ → Events → Bool → List Change
changes fd ev modify = one ev.read modify fd Filter.reading ++ one ev.write modify fd Filter.writing

-- How handleRead ends, and what it gave to write.
pub data Ended : Type 0 where
  at_end blocked : Ended

-- The loop of handleRead.
unfoldable pub read_loop : List Read → Go (Ended × List Bytes)
read_loop [] = out_of_reads
read_loop (bytes b none ∷ rs) = exits
read_loop (bytes b (some zero) ∷ rs) = exits
read_loop (bytes b (some (suc n)) ∷ rs) = read_loop rs >>= λ (e, out). go (e, b ∷ out)
read_loop (end_of_file ∷ rs) = go (Ended.at_end, [])
read_loop (would_block ∷ rs) = go (Ended.blocked, [])
read_loop (error ∷ rs) = exits

-- An event of the list that kevent returns: its socket and filter, which is `none` for one that is
-- neither EVFILT_READ nor EVFILT_WRITE.
pub record Event : Type 0 where
  pub fd : ℕ
  pub filter : Option Filter

module _ (K : Kernel) where
  unfoldable pub update_events : ℕ → Events → Bool → K.World → Go K.World
  update_events fd ev modify w =
      let (ok, w') = K.change (changes fd ev modify) w in exit_if (not ok) w'

  abbrev pub close_at : Ended → ℕ → K.World → K.World
  close_at Ended.at_end fd w = K.close fd w
  close_at Ended.blocked fd w = w

  abbrev pub set_nonblock : ℕ → Option ℕ × K.World → Go K.World
  set_nonblock fd (none, w) = exits
  set_nonblock fd (some flags, w) =
      let (ok, w') = K.set_flags fd (K.with_nonblock flags) w in exit_if (not ok) w'

  unfoldable pub set_none_block : ℕ → K.World → Go K.World
  set_none_block fd w = set_nonblock fd (K.get_flags fd w)

  -- The world, and what was given to write in turn.
  unfoldable pub handle_read : ℕ → K.World → Go (K.World × List Bytes)
  handle_read fd w =
      let (rs, w') = K.reads fd w in read_loop rs >>= λ (e, out). go (close_at e fd w', out)

  abbrev pub watch_new : Option ℕ × K.World → Go K.World
  watch_new (none, w) = exits
  watch_new (some fd, w) = do
    u ← exit_if (not (K.named fd w)) w
    v ← set_none_block fd u
    update_events fd (record { read = true; write = true }) false v

  unfoldable pub handle_accept : ℕ → K.World → Go K.World
  handle_accept lfd w = watch_new (K.accept lfd w)

  abbrev silent : Go K.World → Go (K.World × List (ℕ × Bytes))
  silent g = g >>= λ w. go (w, [])

  -- Bytes with their socket.
  abbrev pub to : ℕ → List Bytes → List (ℕ × Bytes)
  to fd [] = []
  to fd (b ∷ bs) = (fd, b) ∷ to fd bs

  unfoldable pub handle : ℕ → Event → K.World → Go (K.World × List (ℕ × Bytes))
  handle lfd ev w = elim ev.filter [
    | none ↦ exits
    | some Filter.writing ↦
        silent (update_events ev.fd (record { read = true; write = false }) true w)
    | some Filter.reading ↦
        if ev.fd == lfd
        then silent (handle_accept ev.fd w)
        else handle_read ev.fd w >>= λ (w', out). go (w', to ev.fd out)
  ]

  -- loop_once behind its kevent.
  unfoldable pub loop_once : ℕ → List Event → K.World → Go (K.World × List (ℕ × Bytes))
  loop_once lfd [] w = go (w, [])
  loop_once lfd (ev ∷ evs) w = do
    (w', out) ← handle lfd ev w
    (w'', outs) ← loop_once lfd evs w'
    go (w'', out ++ outs)
