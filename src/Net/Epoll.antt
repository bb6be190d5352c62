-- ===== src/Net/Epoll.antt =====
-- socket/tcp-socket-server-epoll.cpp: the whole program.
use cpp_custom.Prelude.{
  Bool, Bytes, List, Option, [], ◌∷◌, ◌++◌, true, false, none, some, ℕ, zero, suc, ◌-◌, ◌==◌,
  if◌then◌else◌, codes, length, replicate,
}
use cpp_custom.Prelude.Int.{ℤ}

-- A call of read: bytes, at least one and at most 16; the end of the connection or an error; or it
-- waits, with nothing to read on a socket that blocks.
pub data Read : Type 0 where
  bytes : Bytes → Read
  nothing waiting : Read

-- The events that a socket is watched for: EPOLLIN with EPOLLOUT and EPOLLET, or EPOLLIN with
-- EPOLLET, EPOLLRDHUP and EPOLLHUP.
pub data Interest : Type 0 where
  listener client : Interest

-- An event: `readable` is EPOLLIN, `hung_up` EPOLLRDHUP or EPOLLHUP.
pub record Event : Type 0 where
  pub fd : ℕ
  pub readable : Bool
  pub hung_up : Bool

-- The calls that the program makes. A socket is `none` where it is -1. `watch` is epoll_ctl with
-- EPOLL_CTL_ADD and tells whether it succeeds; `greet` is inet_ntop and the printf behind it; `again`
-- tells whether errno is EAGAIN. `get_fd` and `set_fd` are fcntl with F_GETFD and F_SETFD, and
-- `or_nonblock` puts O_NONBLOCK into flags. An epoll_wait that fails gives no event.
pub record Kernel : Type 1 where
  pub World : Type 0
  pub socket : World → Option ℕ × World
  pub bind : Option ℕ → World → World
  pub listen : Option ℕ → World → World
  pub create : World → World
  pub get_fd : Option ℕ → World → ℤ × World
  pub or_nonblock : ℤ → ℤ
  pub set_fd : Option ℕ → ℤ → World → Bool × World
  pub watch : Option ℕ → Interest → World → Bool × World
  pub wait : World → List Event × World
  pub accept : Option ℕ → World → Option ℕ × World
  pub greet : World → World
  pub read : ℕ → World → Read × World
  pub again : World → Bool
  pub print : Bytes → World → World
  pub write : ℕ → Bytes → World → World
  pub unwatch : ℕ → World → World
  pub close : ℕ → World → World

-- `waits` is a call of read that does not return, `undefined` a read behind `buf`.
pub data Go {ℓ} (A : Type ℓ) : Type ℓ where
  go : A → Go A
  exits waits undefined out_of_fuel : Go A

infixl 5 ◌>>=◌
abbrev pub ◌>>=◌ {ℓ κ} : {A : Type ℓ} {B : Type κ} → Go A → (A → Go B) → Go B
go a >>= f = f a
exits >>= f = exits
waits >>= f = waits
undefined >>= f = undefined
out_of_fuel >>= f = out_of_fuel

-- BUF_SIZE
abbrev pub buf_size : ℕ
buf_size = 16

abbrev pub zeros : ℕ → Bytes
zeros n = replicate n 0

-- `buf` after bzero and read.
unfoldable pub filled : Bytes → Bytes
filled data_read = data_read ++ zeros (buf_size - length data_read)

abbrev pub prepend : ℕ → Option Bytes → Option Bytes
prepend c none = none
prepend c (some text) = some (c ∷ text)

-- `%s` and strlen: the bytes before the first zero, `none` where `buf` has none.
unfoldable pub text_of : Bytes → Option Bytes
text_of [] = none
text_of (c ∷ cs) = let later = prepend c (text_of cs) in if c == 0 then some [] else later

-- `events[i].data.fd == listen_sock`
abbrev pub is_listener : Option ℕ → ℕ → Bool
is_listener none fd = false
is_listener (some sock) fd = fd == sock

-- The world, and what was given to write, with its socket.
module _ (K : Kernel) where
  abbrev pub Result : Type 0
  Result = Go (K.World × List (ℕ × Bytes))

  abbrev pub silent : K.World → Result
  silent w = go (w, [])

  abbrev pub after : ℕ × Bytes → Result → Result
  after sent r = r >>= λ (w, out). go (w, sent ∷ out)

  -- The flags with the world, and the result, which no caller uses.
  unfoldable pub setnonblocking : Option ℕ → K.World → Bool × K.World
  setnonblocking sock w = let (flags, u) = K.get_fd sock w in K.set_fd sock (K.or_nonblock flags) u

  abbrev pub exit_unless : Bool × K.World → Go K.World
  exit_unless (true, w) = go w
  exit_unless (false, w) = exits

  unfoldable pub epoll_ctl_add : Option ℕ → Interest → K.World → Go K.World
  epoll_ctl_add sock interest w = exit_unless (K.watch sock interest w)

  -- A new connection.
  unfoldable pub welcome : Option ℕ × K.World → Go K.World
  welcome (conn, w) = epoll_ctl_add conn Interest.client ((setnonblocking conn (K.greet w)).1)

  -- What read has put into `buf` is printed and written back; `next` is the loop behind it.
  unfoldable pub echo_text : (K.World → Result) → ℕ → K.World → Option Bytes → Result
  echo_text next fd w none = undefined
  echo_text next fd w (some text) =
      after (fd, text)
        (next (K.write fd text (K.print (codes "[+] data: " ++ text ++ codes "\n") w)))

  abbrev pub break_if : Bool → K.World → Result → Result
  break_if true w rest = silent w
  break_if false w rest = rest

  -- A turn of the loop around read.
  unfoldable pub read_turn : (K.World → Result) → ℕ → Read × K.World → Result
  read_turn next fd (nothing, w) = silent w
  read_turn next fd (waiting, w) = waits
  read_turn next fd (bytes b, w) = break_if (K.again w) w (echo_text next fd w (text_of (filled b)))

  -- The loop, with fuel.
  unfoldable pub read_loop : ℕ → ℕ → K.World → Result
  read_loop zero fd w = out_of_fuel
  read_loop (suc fuel) fd w = read_turn (read_loop fuel fd) fd (K.read fd w)

  unfoldable pub hang_up : Bool → ℕ → K.World × List (ℕ × Bytes) → Result
  hang_up true fd (w, out) =
      go (K.close fd (K.unwatch fd (K.print (codes "[+] connection closed\n") w)), out)
  hang_up false fd (w, out) = go (w, out)

  abbrev pub greeted : Go K.World → Result
  greeted g = g >>= silent

  unfoldable pub serve : ℕ → Option ℕ → Event → K.World → Result
  serve fuel sock ev w =
      (if is_listener sock ev.fd
        then greeted (welcome (K.accept sock w))
        else if ev.readable
        then read_loop fuel ev.fd w
        else silent (K.print (codes "[+] uexpected\n") w))
      >>= hang_up ev.hung_up ev.fd

  -- The loop over the events.
  unfoldable pub serve_all : ℕ → Option ℕ → List Event → K.World → Result
  serve_all fuel sock [] w = silent w
  serve_all fuel sock (ev ∷ evs) w = do
    (w', out) ← serve fuel sock ev w
    (w'', outs) ← serve_all fuel sock evs w'
    go (w'', out ++ outs)

  -- `while (1)`, so many turns of it.
  unfoldable pub run : ℕ → ℕ → Option ℕ → K.World → Result
  run fuel zero sock w = silent w
  run fuel (suc turns) sock w = do
    (w', out) ← serve_all fuel sock (K.wait w).0 (K.wait w).1
    (w'', outs) ← run fuel turns sock w'
    go (w'', out ++ outs)

  -- `main` up to its loop.
  abbrev pub prepared : Option ℕ × K.World → Go (Option ℕ × K.World)
  prepared (sock, w) =
      epoll_ctl_add sock Interest.listener
        (K.create (K.listen sock ((setnonblocking sock (K.bind sock w)).1)))
      >>= λ w'. go (sock, w')

  unfoldable pub start : K.World → Go (Option ℕ × K.World)
  start w = prepared (K.socket w)
