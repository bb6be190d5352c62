-- ===== src/Chat/Races.antt =====
-- What the shared conn_scokfd loses: a connection whose thread begins too late.
use cpp_custom.Prelude.{
  Bool, List, [], ◌∷◌, true, false, some, ℕ, zero, suc, ◌≡◌, refl, subst, some-injective, arith,
  ◌==◌, get_elem?, set,
}
use cpp_custom.Net.Select.{member}
use cpp_custom.Chat.Threads.{
  Thread, Server, Step, Steps, accepting, creating, created, talks, finished, accept, accept_fails,
  create, create_fails, begin, finish, killed, here, later,
}

abbrev pub on : ℕ → Thread → Bool
on a created = false
on a (talks fd) = fd == a
on a (finished fd) = fd == a

abbrev pub NoneOn : ℕ → List Thread → Type 0
NoneOn a [] = Unit {0}
NoneOn a (t ∷ ts) = (on a t ≡ false) × NoneOn a ts

-- A connection that was accepted, that no thread is or was on, and whose socket is overwritten.
pub record Unserved (a : ℕ) (s : Server) : Type 0 where
  pub none_on : NoneOn a s.threads
  pub overwritten : (s.slot == a) ≡ false
  pub is_open : member a s.open_sockets ≡ true

NoneOn-set :
    (a : ℕ) (ts : List Thread) (i : ℕ) (t : Thread)
    → NoneOn a ts
    → on a t ≡ false
    → NoneOn a (set ts i t)
NoneOn-set a [] i t h off = tt
NoneOn-set a (u ∷ us) zero t h off = (off, h.1)
NoneOn-set a (u ∷ us) (suc i) t h off = (h.0, NoneOn-set a us i t h.1 off)

NoneOn-get :
    (a : ℕ) (ts : List Thread) (i : ℕ) (t : Thread)
    → NoneOn a ts
    → get_elem? ts i ≡ some t
    → on a t ≡ false
NoneOn-get a [] i t h at = ground arith
NoneOn-get a (u ∷ us) zero t h at = subst (λ v. on a v ≡ false) (some-injective u t at) h.0
NoneOn-get a (u ∷ us) (suc i) t h at = NoneOn-get a us i t h.1 at

member-other :
    (a fd : ℕ) (fds : List ℕ) → member a fds ≡ true → member fd fds ≡ false → (fd == a) ≡ false
member-other a fd [] h g = ground arith
member-other a fd (x ∷ xs) h g = ground (arith, member-other a fd xs)

Step-Unserved : {limit a : ℕ} {s t : Server} → Unserved a s → Step limit s t → Unserved a t
Step-Unserved {a = a} {s = s} u (accept fd at new few) =
    let other = member-other a fd s.open_sockets u.is_open new in
    record { none_on = u.none_on; overwritten = other; is_open = rw (other, u.is_open) refl }
Step-Unserved u (accept_fails at) = record {
  none_on = u.none_on;
  overwritten = u.overwritten;
  is_open = u.is_open;
}
Step-Unserved u (create at) = record {
  none_on = (refl, u.none_on);
  overwritten = u.overwritten;
  is_open = u.is_open;
}
Step-Unserved u (create_fails at) = record {
  none_on = u.none_on;
  overwritten = u.overwritten;
  is_open = u.is_open;
}
Step-Unserved {a = a} {s = s} u (begin i at th) = record {
  none_on = NoneOn-set a s.threads i (talks s.slot) u.none_on u.overwritten;
  overwritten = u.overwritten;
  is_open = u.is_open;
}
Step-Unserved {a = a} {s = s} u (finish i fd at th) = record {
  none_on =
      NoneOn-set a s.threads i (finished fd) u.none_on
        (NoneOn-get a s.threads i (talks fd) u.none_on th);
  overwritten = u.overwritten;
  is_open = u.is_open;
}
Step-Unserved u (killed i fd th) = record {
  none_on = u.none_on;
  overwritten = u.overwritten;
  is_open = u.is_open;
}

Steps-Unserved : {limit a : ℕ} {s t : Server} → Unserved a s → Steps limit s t → Unserved a t
Steps-Unserved u here = u
Steps-Unserved u (later r st) = Step-Unserved (Steps-Unserved u r) st

-- If the next connection is accepted before any thread is on the socket of the last one, no thread
-- ever is, whatever the threads and the clients do then: each thread that had not begun begins, if at
-- all, on a later socket, and the accepted connection stays open with no answer.
pub accept-Unserved :
    {limit : ℕ} (s t : Server) (fd : ℕ)
    → s.main ≡ accepting
    → member s.slot s.open_sockets ≡ true
    → NoneOn s.slot s.threads
    → member fd s.open_sockets ≡ false
    → Steps limit (record s { main = creating; slot = fd; open_sockets = fd ∷ s.open_sockets }) t
    → Unserved s.slot t
accept-Unserved s t fd at is_open off new r =
    let other = member-other s.slot fd s.open_sockets is_open new in
    Steps-Unserved
      (record { none_on = off; overwritten = other; is_open = rw (other, is_open) refl }) r
