-- ===== src/Net/Overflow.antt =====
-- Where the select server leaves its buffer or its table.
use cpp_custom.Prelude.{
  Bool, Bytes, List, Option, [], ◌∷◌, true, false, ◌&&◌, none, some, ℕ, zero, suc, ◌+◌, ◌≤◌, ◌≡◌,
  refl, sym, subst, some-injective, arith, ltb, ◌==◌, if◌then◌else◌, length, get_elem?, set,
}
use cpp_custom.Net.Select.{
  Answers, Action, Turn, ◌>>=◌, member, all_fit, asked, is_set, add_client, message, accept_client,
  answer, serve_slot, serve_clients, within, serve_table, turn, done, undefined, exits, killed,
  send,
}

-- What was read fills the buffer, or the read failed.
abbrev pub Overflows : Option Bytes → Type 0
Overflows none = Unit {0}
Overflows (some bytes) = 1024 ≤ length bytes

answer-Overflows : (b : Bool) (sd : ℕ) (o : Option Bytes) → Overflows o → answer b sd o ≡ undefined
unfolding answer
answer-Overflows b sd none h = refl
answer-Overflows b sd (some []) h = absurd (omega arith)
answer-Overflows b sd (some (c ∷ cs)) h =
    let full : ltb (suc (length cs)) 1024 ≡ false = ground arith in rw full refl

-- Without SIGPIPE the end of the program is no result of serving a socket.
abbrev NoExit : {A : Type 0} → Turn A → Type 0
NoExit (done a) = Unit
NoExit undefined = Unit
NoExit exits = ⊥
NoExit killed = ⊥

bind-undefined :
    {A B : Type 0} (x : Turn A) (k : A → Turn B)
    → NoExit x
    → ((a : A) → k a ≡ undefined)
    → x >>= k ≡ undefined
bind-undefined (done a) k n h = h a
bind-undefined undefined k n h = refl
bind-undefined exits k n h = absurd n
bind-undefined killed k n h = absurd n

within-undefined : {A : Type 0} (b : Bool) (t : Turn A) → t ≡ undefined → within b t ≡ undefined
within-undefined true t h = h
within-undefined false t h = refl

NoExit-if :
    {A : Type 0} (b : Bool) (x y : Turn A) → NoExit x → NoExit y → NoExit (if b then x else y)
NoExit-if true x y h g = h
NoExit-if false x y h g = g

answer-NoExit : (sd : ℕ) (o : Option Bytes) → NoExit (answer false sd o)
unfolding answer
answer-NoExit sd none = tt
answer-NoExit sd (some []) = tt
answer-NoExit sd (some (c ∷ cs)) = NoExit-if (ltb (suc (length cs)) 1024) _ undefined tt tt

serve_slot-NoExit :
    (a : Answers) (set : Bool) (i sd : ℕ) → a.broken sd ≡ false → NoExit (serve_slot a set i sd)
unfolding serve_slot
serve_slot-NoExit a true i sd e = rw e (answer-NoExit sd (a.read i))
serve_slot-NoExit a false i sd e = tt

serve_slot-Overflows :
    (a : Answers) (set : Bool) (i sd : ℕ)
    → set ≡ true
    → Overflows (a.read i)
    → serve_slot a set i sd ≡ undefined
unfolding serve_slot
serve_slot-Overflows a true i sd is h = answer-Overflows (a.broken sd) sd (a.read i) h
serve_slot-Overflows a false i sd is h = ground arith

serve_clients-Overflows :
    (a : Answers) (set : ℕ → Bool) (i k m sd : ℕ) (table : List ℕ)
    → ((fd : ℕ) → a.broken fd ≡ false)
    → m ≡ i + k
    → get_elem? table k ≡ some sd
    → set sd ≡ true
    → Overflows (a.read m)
    → serve_clients a set i table ≡ undefined
unfolding serve_clients
serve_clients-Overflows a set i k m sd [] safe e at is h = ground arith
serve_clients-Overflows a set i zero m sd (x ∷ xs) safe e at is h =
    let here : m ≡ i = omega arith in
    let same = some-injective x sd at in
    rw
      (serve_slot-Overflows a (set x) i x (subst (λ y. set y ≡ true) (sym same) is)
        (subst (λ j. Overflows (a.read j)) here h))
      refl
serve_clients-Overflows a set i (suc k) m sd (x ∷ xs) safe e at is h =
    let later = serve_clients-Overflows a set (suc i) k m sd xs safe (omega arith) at is h in
    bind-undefined (serve_slot a (set x) i x) _ (serve_slot-NoExit a (set x) i x (safe x))
      λ r. rw later refl

-- If, behind a new connection, a slot of the table holds a socket that select has found ready, and
-- its read fails or gives 1024 bytes or more, and no send of the turn raises SIGPIPE, the turn writes
-- outside of its buffer, whatever the other clients send.
pub turn-Overflows :
    (a : Answers) (master : ℕ) (table table' : List ℕ) (out : List Action) (k sd : ℕ)
    → accept_client a master table ≡ done (table', out)
    → ((fd : ℕ) → a.broken fd ≡ false)
    → get_elem? table' k ≡ some sd
    → is_set a master table sd ≡ true
    → Overflows (a.read k)
    → turn a master table ≡ undefined
unfolding turn serve_table
turn-Overflows a master table table' out k sd new safe at is h =
    let set = is_set a master table in
    let stuck = serve_clients-Overflows a set 0 k k sd table' safe (omega arith) at is h in
    within-undefined (ltb master 1024 && all_fit table) _
      (rw new (rw (within-undefined (all_fit table') (serve_clients a set 0 table') stuck) refl))

add_client-full : (fd : ℕ) (table : List ℕ) → member 0 table ≡ false → add_client fd table ≡ table
unfolding add_client
add_client-full fd [] h = refl
add_client-full fd (sd ∷ sds) h = ground (arith, add_client-full fd sds)

-- With no free slot, a new connection on which a send raises no SIGPIPE is accepted and greeted and the table stays as it is: the
-- socket is neither closed nor in the set that the next select is given.
pub accept_client-full :
    (a : Answers) (master fd : ℕ) (table : List ℕ)
    → member 0 table ≡ false
    → is_set a master table master ≡ true
    → a.accept ≡ some fd
    → a.broken fd ≡ false
    → member fd table ≡ false
    → (master == fd) ≡ false
    → (accept_client a master table ≡ done (table, send fd message ∷ []))
      × (asked master table fd ≡ false)
unfolding accept_client
accept_client-full a master fd table full set new safe absent other =
    (rw (set, new, safe, add_client-full fd table full) refl, ground arith)
