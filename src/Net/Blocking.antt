-- ===== src/Net/Blocking.antt =====
-- The epoll server over a kernel whose sockets block until F_SETFL says otherwise.
use cpp_custom.Prelude.{
  Bool, Bytes, List, Option, true, false, none, some, ℕ, zero, suc, ◌≡◌, refl, subst, if◌then◌else◌,
  codes,
}
use cpp_custom.Prelude.Int.{ℤ}
use cpp_custom.Net.Epoll.{
  Read, Interest, Event, Kernel, Go, ◌>>=◌, filled, text_of, is_listener, silent, setnonblocking,
  exit_unless, epoll_ctl_add, welcome, echo_text, read_turn, read_loop, hang_up, greeted, serve,
  bytes, nothing, waiting, go, exits, waits, undefined, out_of_fuel, client,
}

-- `AllBlock` tells that every socket blocks and that errno is not EAGAIN. A new socket blocks; none of
-- the calls changes that, nor does fcntl with F_SETFD, which sets the flags of the descriptor and not
-- those of the socket; and on a socket that blocks, read gives nothing only where the connection has
-- ended or failed.
pub record Blocks (K : Kernel) : Type 1 where
  pub AllBlock : K.World → Type 0
  pub has_ended : ℕ → K.World → Type 0
  pub again_lem : (w : K.World) → AllBlock w → K.again w ≡ false
  pub socket_lem : (w : K.World) → AllBlock w → AllBlock (K.socket w).1
  pub bind_lem : (s : Option ℕ) (w : K.World) → AllBlock w → AllBlock (K.bind s w)
  pub listen_lem : (s : Option ℕ) (w : K.World) → AllBlock w → AllBlock (K.listen s w)
  pub create_lem : (w : K.World) → AllBlock w → AllBlock (K.create w)
  pub get_fd_lem : (s : Option ℕ) (w : K.World) → AllBlock w → AllBlock (K.get_fd s w).1
  pub set_fd_lem :
      (s : Option ℕ) (flags : ℤ) (w : K.World) → AllBlock w → AllBlock (K.set_fd s flags w).1
  pub watch_lem :
      (s : Option ℕ) (i : Interest) (w : K.World) → AllBlock w → AllBlock (K.watch s i w).1
  pub wait_lem : (w : K.World) → AllBlock w → AllBlock (K.wait w).1
  pub accept_lem : (s : Option ℕ) (w : K.World) → AllBlock w → AllBlock (K.accept s w).1
  pub greet_lem : (w : K.World) → AllBlock w → AllBlock (K.greet w)
  pub read_lem : (fd : ℕ) (w : K.World) → AllBlock w → AllBlock (K.read fd w).1
  pub print_lem : (text : Bytes) (w : K.World) → AllBlock w → AllBlock (K.print text w)
  pub write_lem : (fd : ℕ) (b : Bytes) (w : K.World) → AllBlock w → AllBlock (K.write fd b w)
  pub unwatch_lem : (fd : ℕ) (w : K.World) → AllBlock w → AllBlock (K.unwatch fd w)
  pub close_lem : (fd : ℕ) (w : K.World) → AllBlock w → AllBlock (K.close fd w)
  pub ended_lem :
      (fd : ℕ) (w u : K.World) → AllBlock w → K.read fd w ≡ (nothing, u) → has_ended fd u

-- What holds of a result, if there is one.
abbrev pub Returns : {A : Type 0} → Go A → (A → Type 0) → Type 0
Returns (go a) P = P a
Returns exits P = Unit
Returns waits P = Unit
Returns undefined P = Unit
Returns out_of_fuel P = Unit

pub Returns-bind :
    {A B : Type 0} (m : Go A) (k : A → Go B) (P : A → Type 0) (Q : B → Type 0)
    → Returns m P
    → ((a : A) → P a → Returns (k a) Q)
    → Returns (m >>= k) Q
Returns-bind (go a) k P Q h f = f a h
Returns-bind exits k P Q h f = tt
Returns-bind waits k P Q h f = tt
Returns-bind undefined k P Q h f = tt
Returns-bind out_of_fuel k P Q h f = tt

Returns-weaken :
    {A : Type 0} (m : Go A) (P Q : A → Type 0) → Returns m P → ((a : A) → P a → Q a) → Returns m Q
Returns-weaken (go a) P Q h f = f a h
Returns-weaken exits P Q h f = tt
Returns-weaken waits P Q h f = tt
Returns-weaken undefined P Q h f = tt
Returns-weaken out_of_fuel P Q h f = tt

module _ (K : Kernel) (B : Blocks K) where
  open B use {
    AllBlock, has_ended, again_lem, socket_lem, bind_lem, listen_lem, create_lem, get_fd_lem,
    set_fd_lem, watch_lem, wait_lem, accept_lem, greet_lem, read_lem, print_lem, write_lem,
    unwatch_lem, close_lem, ended_lem,
  }

  abbrev pub Kept : K.World × List (ℕ × Bytes) → Type 0
  Kept (w, out) = AllBlock w

  -- The loop has returned: errno was never EAGAIN, so read gave nothing.
  abbrev pub Ended : ℕ → K.World × List (ℕ × Bytes) → Type 0
  Ended fd (w, out) = AllBlock w × has_ended fd w

  pub setnonblocking-AllBlock :
      (s : Option ℕ) (w : K.World) → AllBlock w → AllBlock (setnonblocking K s w).1
  unfolding setnonblocking
  setnonblocking-AllBlock s w h = set_fd_lem s _ _ (get_fd_lem s w h)

  exit_unless-AllBlock : (p : Bool × K.World) → AllBlock p.1 → Returns (exit_unless K p) AllBlock
  exit_unless-AllBlock (true, w) h = h
  exit_unless-AllBlock (false, w) h = tt

  pub epoll_ctl_add-AllBlock :
      (s : Option ℕ) (i : Interest) (w : K.World)
      → AllBlock w
      → Returns (epoll_ctl_add K s i w) AllBlock
  unfolding epoll_ctl_add
  epoll_ctl_add-AllBlock s i w h = exit_unless-AllBlock (K.watch s i w) (watch_lem s i w h)

  welcome-AllBlock : (p : Option ℕ × K.World) → AllBlock p.1 → Returns (welcome K p) AllBlock
  unfolding welcome
  welcome-AllBlock (conn, w) h =
      epoll_ctl_add-AllBlock conn client _ (setnonblocking-AllBlock conn _ (greet_lem w h))

  echo_text-Ended :
      (next : K.World → Go (K.World × List (ℕ × Bytes))) (fd : ℕ) (w : K.World) (o : Option Bytes)
      → ((u : K.World) → AllBlock u → Returns (next u) (Ended fd))
      → AllBlock w
      → Returns (echo_text K next fd w o) (Ended fd)
  unfolding echo_text
  echo_text-Ended next fd w none ih h = tt
  echo_text-Ended next fd w (some text) ih h =
      Returns-bind (next _) _ (Ended fd) (Ended fd) (ih _ (write_lem fd text _ (print_lem _ w h)))
        λ (u, out) e. e

  read_turn-Ended :
      (next : K.World → Go (K.World × List (ℕ × Bytes))) (fd : ℕ) (w : K.World)
      → (p : Read × K.World) → K.read fd w ≡ p
      → ((u : K.World) → AllBlock u → Returns (next u) (Ended fd))
      → AllBlock w
      → Returns (read_turn K next fd p) (Ended fd)
  unfolding read_turn
  read_turn-Ended next fd w (nothing, u) e ih h =
      (subst (λ q. AllBlock q.1) e (read_lem fd w h), ended_lem fd w u h e)
  read_turn-Ended next fd w (waiting, u) e ih h = tt
  read_turn-Ended next fd w (bytes b, u) e ih h =
      let kept : AllBlock u = subst (λ q. AllBlock q.1) e (read_lem fd w h) in
      rw (again_lem u kept) (echo_text-Ended next fd u (text_of (filled b)) ih kept)

  read_loop-Ended :
      (fuel fd : ℕ) (w : K.World) → AllBlock w → Returns (read_loop K fuel fd w) (Ended fd)
  unfolding read_loop
  read_loop-Ended zero fd w h = tt
  read_loop-Ended (suc fuel) fd w h =
      read_turn-Ended (read_loop K fuel fd) fd w (K.read fd w) refl (read_loop-Ended fuel fd) h

  hang_up-AllBlock :
      (hung : Bool) (fd : ℕ) (r : K.World × List (ℕ × Bytes))
      → Kept r
      → Returns (hang_up K hung fd r) Kept
  unfolding hang_up
  hang_up-AllBlock true fd (w, out) h = close_lem fd _ (unwatch_lem fd _ (print_lem _ w h))
  hang_up-AllBlock false fd (w, out) h = h

  -- A readable client whose connection is up.
  abbrev pub Talks : Option ℕ → Event → Type 0
  Talks sock ev = (is_listener sock ev.fd ≡ false) × (ev.readable ≡ true) × (ev.hung_up ≡ false)

  pub serve-Talks :
      (fuel : ℕ) (sock : Option ℕ) (ev : Event) (w : K.World)
      → Talks sock ev
      → AllBlock w
      → Returns (serve K fuel sock ev w) (Ended ev.fd)
  unfolding serve hang_up
  serve-Talks fuel sock ev w (at, on, up) h =
      rw (at, on, up)
        (Returns-bind (read_loop K fuel ev.fd w) _ (Ended ev.fd) (Ended ev.fd)
          (read_loop-Ended fuel ev.fd w h) λ (u, out) e. e)

  pub serve-AllBlock :
      (fuel : ℕ) (sock : Option ℕ) (ev : Event) (w : K.World)
      → AllBlock w
      → Returns (serve K fuel sock ev w) Kept
  unfolding serve
  serve-AllBlock fuel sock ev w h =
      Returns-bind _ _ Kept Kept (served (is_listener sock ev.fd) ev.readable)
        λ r e. hang_up-AllBlock ev.hung_up ev.fd r e
    where
      served :
          (at on : Bool)
          → Returns
              (if at
                then greeted K (welcome K (K.accept sock w))
                else if on
                then read_loop K fuel ev.fd w
                else silent K (K.print (codes "[+] uexpected\n") w))
              Kept
      served true on =
          Returns-bind (welcome K (K.accept sock w)) _ AllBlock Kept
            (welcome-AllBlock (K.accept sock w) (accept_lem sock w h)) λ u e. e
      served false true =
          Returns-weaken (read_loop K fuel ev.fd w) (Ended ev.fd) Kept
            (read_loop-Ended fuel ev.fd w h) λ (u, out) e. e.0
      served false false = print_lem _ w h
