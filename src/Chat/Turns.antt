-- ===== src/Chat/Turns.antt =====
-- The server with threads where every thread begins before the next connection is accepted.
use cpp_custom.Prelude.{
  Bool, List, [], ◌∷◌, true, false, some, ℕ, zero, suc, ◌≡◌, refl, sym, ap, subst, some-injective,
  ◌∙◌, ◌≢◌, arith, get_elem?, set,
}
use cpp_custom.Chat.Threads.{
  Thread, Server, start, Step, accepting, creating, created, talks, finished, accept, accept_fails,
  create, create_fails, begin, finish, killed,
}

abbrev pub has_begun : Thread → Bool
has_begun created = false
has_begun (talks fd) = true
has_begun (finished fd) = true

abbrev pub AllBegun : List Thread → Type 0
AllBegun [] = Unit {0}
AllBegun (t ∷ ts) = (has_begun t ≡ true) × AllBegun ts

-- The socket of each thread; one that has not begun finds that of `slot`.
abbrev pub socket_of : ℕ → Thread → ℕ
socket_of slot created = slot
socket_of slot (talks fd) = fd
socket_of slot (finished fd) = fd

abbrev pub sockets : ℕ → List Thread → List ℕ
sockets slot [] = []
sockets slot (t ∷ ts) = socket_of slot t ∷ sockets slot ts

-- A run of the server in which accept returns only while every thread has begun.
pub data InTurn (limit : ℕ) : Server → Type 0 where
  first : InTurn limit start
  next :
      {s t : Server}
      → InTurn limit s
      → (t.main ≡ creating → AllBegun s.threads)
      → Step limit s t
      → InTurn limit t

record Served (s : Server) : Type 0 where
  accepts : s.main ≡ accepting → sockets s.slot s.threads ≡ s.open_sockets
  creates :
      s.main ≡ creating → AllBegun s.threads × (s.slot ∷ sockets s.slot s.threads ≡ s.open_sockets)

sockets-begun : (a b : ℕ) (ts : List Thread) → AllBegun ts → sockets a ts ≡ sockets b ts
sockets-begun a b [] h = refl
sockets-begun a b (created ∷ ts) h = absurd (ground (arith, h.0))
sockets-begun a b (talks fd ∷ ts) h = ap (λ l. fd ∷ l) (sockets-begun a b ts h.1)
sockets-begun a b (finished fd ∷ ts) h = ap (λ l. fd ∷ l) (sockets-begun a b ts h.1)

sockets-set :
    (slot : ℕ) (ts : List Thread) (i : ℕ) (old new : Thread)
    → get_elem? ts i ≡ some old
    → socket_of slot new ≡ socket_of slot old
    → sockets slot (set ts i new) ≡ sockets slot ts
sockets-set slot [] i old new at e = refl
sockets-set slot (t ∷ ts) zero old new at e =
    ap (λ fd. fd ∷ sockets slot ts) (e ∙ ap (socket_of slot) (sym (some-injective t old at)))
sockets-set slot (t ∷ ts) (suc i) old new at e =
    ap (λ l. socket_of slot t ∷ l) (sockets-set slot ts i old new at e)

AllBegun-set :
    (ts : List Thread) (i : ℕ) (t : Thread)
    → AllBegun ts
    → has_begun t ≡ true
    → AllBegun (set ts i t)
AllBegun-set [] i t h on = tt
AllBegun-set (u ∷ us) zero t h on = (on, h.1)
AllBegun-set (u ∷ us) (suc i) t h on = (h.0, AllBegun-set us i t h.1 on)

AllBegun-get : (ts : List Thread) (i : ℕ) → AllBegun ts → get_elem? ts i ≢ some created
AllBegun-get [] i h at = ground arith
AllBegun-get (u ∷ us) zero h at =
    absurd (cc (subst (λ v. has_begun v ≡ true) (some-injective u created at) h.0))
AllBegun-get (u ∷ us) (suc i) h at = AllBegun-get us i h.1 at

Step-Served :
    {limit : ℕ} {s t : Server}
    → Served s
    → (t.main ≡ creating → AllBegun s.threads)
    → Step limit s t
    → Served t
Step-Served {s = s} v calm (accept fd at new few) = record {
  accepts = λ e. absurd (cc e);
  creates = λ e.
      (calm refl, ap (λ l. fd ∷ l) (sockets-begun fd s.slot s.threads (calm refl) ∙ v.accepts at));
}
Step-Served v calm (accept_fails at) = record {
  accepts = λ e. absurd (cc e);
  creates = λ e. absurd (cc e);
}
Step-Served v calm (create at) = record {
  accepts = λ e. (v.creates at).1;
  creates = λ e. absurd (cc e);
}
Step-Served v calm (create_fails at) = record {
  accepts = λ e. absurd (cc e);
  creates = λ e. absurd (cc e);
}
Step-Served {s = s} v calm (begin i at th) =
    let same = sockets-set s.slot s.threads i created (talks s.slot) th refl in
    record {
      accepts = λ e. same ∙ v.accepts e;
      creates = λ e. absurd (AllBegun-get s.threads i (v.creates e).0 th);
    }
Step-Served {s = s} v calm (finish i fd at th) =
    let same = sockets-set s.slot s.threads i (talks fd) (finished fd) th refl in
    record {
      accepts = λ e. same ∙ v.accepts e;
      creates = λ e. (
        AllBegun-set s.threads i (finished fd) (v.creates e).0 refl,
        ap (λ l. s.slot ∷ l) same ∙ (v.creates e).1,
      );
    }
Step-Served v calm (killed i fd th) = record {
  accepts = λ e. absurd (cc e);
  creates = λ e. absurd (cc e);
}

InTurn-Served : {limit : ℕ} {s : Server} → InTurn limit s → Served s
InTurn-Served first = record { accepts = λ e. refl; creates = λ e. absurd (cc e) }
InTurn-Served (next r calm st) = Step-Served (InTurn-Served r) calm st

-- If accept returns only while every thread has begun, then whenever the server waits for the next
-- connection, the threads are just one for each connection that was accepted, each on its socket.
pub sockets-accepted :
    {limit : ℕ} {s : Server}
    → InTurn limit s
    → s.main ≡ accepting
    → sockets s.slot s.threads ≡ s.open_sockets
sockets-accepted r at = (InTurn-Served r).accepts at
