-- ===== src/Chat/Forks.antt =====
-- What every order of the steps of the processes keeps.
use cpp_custom.Prelude.{
  List, [], ◌∷◌, some, ℕ, zero, suc, ◌≤◌, ◌≡◌, refl, sym, ap, some-injective, ◌∙◌, arith, length,
  get_elem?, set,
}
use cpp_custom.Chat.Processes.{
  Child, Server, Step, Reach, accepting, forking, talks, closed, killed, accept, accept_fails, fork,
  fork_fails, close, kill, begin, later,
}

abbrev pub socket_of : Child → ℕ
socket_of (talks fd) = fd
socket_of (closed fd) = fd
socket_of (killed fd) = fd

abbrev pub sockets : List Child → List ℕ
sockets [] = []
sockets (c ∷ cs) = socket_of c ∷ sockets cs

-- `limit` bounds the sockets, and but for the one that is not forked for yet, which is `conn`, each
-- has its child.
record Served (limit : ℕ) (s : Server) : Type 0 where
  bounded : length s.open_sockets ≤ limit
  accepts : s.main ≡ accepting → sockets s.children ≡ s.open_sockets
  forks : s.main ≡ forking → s.conn ∷ sockets s.children ≡ s.open_sockets

sockets-set :
    (cs : List Child) (i : ℕ) (old new : Child)
    → get_elem? cs i ≡ some old
    → socket_of new ≡ socket_of old
    → sockets (set cs i new) ≡ sockets cs
sockets-set [] i old new at e = refl
sockets-set (c ∷ cs) zero old new at e =
    ap (λ fd. fd ∷ sockets cs) (e ∙ ap socket_of (sym (some-injective c old at)))
sockets-set (c ∷ cs) (suc i) old new at e =
    ap (λ l. socket_of c ∷ l) (sockets-set cs i old new at e)

Served-set :
    {limit : ℕ} {s : Server} (i : ℕ) (old new : Child)
    → Served limit s
    → get_elem? s.children i ≡ some old
    → socket_of new ≡ socket_of old
    → Served limit (record s { children = set s.children i new })
Served-set {s = s} i old new v at e =
    let same = sockets-set s.children i old new at e in
    record {
      bounded = v.bounded;
      accepts = λ m. same ∙ v.accepts m;
      forks = λ m. ap (λ l. s.conn ∷ l) same ∙ v.forks m;
    }

Step-Served : {limit : ℕ} {s t : Server} → Served limit s → Step limit s t → Served limit t
Step-Served {s = s} v (accept fd at new few) = record {
  bounded = few;
  accepts = λ e. absurd (cc e);
  forks = λ e. ap (λ l. fd ∷ l) (v.accepts at);
}
Step-Served v (accept_fails at) = record {
  bounded = v.bounded;
  accepts = λ e. absurd (cc e);
  forks = λ e. absurd (cc e);
}
Step-Served v (fork at) = record {
  bounded = v.bounded;
  accepts = λ e. v.forks at;
  forks = λ e. absurd (cc e);
}
Step-Served v (fork_fails at) = record {
  bounded = v.bounded;
  accepts = λ e. absurd (cc e);
  forks = λ e. absurd (cc e);
}
Step-Served v (close i fd at) = Served-set i (talks fd) (closed fd) v at refl
Step-Served v (kill i fd at) = Served-set i (talks fd) (killed fd) v at refl

Reach-Served : {limit : ℕ} {s : Server} → Reach limit s → Served limit s
Reach-Served begin = record {
  bounded = omega arith;
  accepts = λ e. refl;
  forks = λ e. absurd (cc e);
}
Reach-Served (later r st) = Step-Served (Reach-Served r) st

length-sockets : (cs : List Child) → length (sockets cs) ≡ length cs
length-sockets [] = refl
length-sockets (c ∷ cs) = ap suc (length-sockets cs)

-- In every order of the steps, whenever the parent waits for the next connection, the children are
-- just one for each connection that was accepted, each on its socket. So there are never more than
-- `limit` of them, those that have ended included.
pub sockets-forked :
    {limit : ℕ} {s : Server}
    → Reach limit s
    → s.main ≡ accepting
    → (sockets s.children ≡ s.open_sockets) × (length s.children ≤ limit)
sockets-forked {s = s} r at =
    let v = Reach-Served r in
    let same = v.accepts at in
    (same, omega (arith, ap length same, v.bounded, length-sockets s.children))
