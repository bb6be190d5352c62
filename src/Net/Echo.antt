-- ===== src/Net/Echo.antt =====
-- What a turn of the select server does for its clients.
use cpp_custom.Prelude.{
  Bool, Bytes, List, Option, [], ◌∷◌, ◌++◌, true, false, none, some, ℕ, suc, ◌<◌, ◌≡◌, refl, arith,
  ltb, ◌==◌, length, set,
}
use cpp_custom.Net.Select.{
  Answers, Action, all_fit, is_set, accept_client, before_zero, answer, serve_slot, serve_clients,
  serve_table, turn, done, send, close,
}

abbrev pub NoZero : Bytes → Type 0
NoZero [] = Unit {0}
NoZero (c ∷ cs) = ((c == 0) ≡ false) × NoZero cs

-- What was read fits the buffer with the zero behind it, and has no zero in it.
abbrev pub Plain : Option Bytes → Type 0
Plain none = ⊥
Plain (some bytes) = (length bytes < 1024) × NoZero bytes

-- Of each slot that select has found ready the read is plain, and a send to its socket raises no SIGPIPE.
abbrev pub AllPlain : Answers → (ℕ → Bool) → ℕ → List ℕ → Type 0
AllPlain a set i [] = Unit {0}
AllPlain a set i (sd ∷ sds) =
    (set sd ≡ true → Plain (a.read i) × (a.broken sd ≡ false)) × AllPlain a set (suc i) sds

-- An echo of everything: a connection that ends is closed, and its slot free.
abbrev pub echo_slot : Bool → ℕ → Option Bytes → ℕ
echo_slot true sd (some []) = 0
echo_slot set sd bytes = sd

abbrev pub echo : Bool → ℕ → Option Bytes → List Action
echo true sd (some []) = close sd ∷ []
echo true sd (some (c ∷ cs)) = send sd (c ∷ cs) ∷ []
echo set sd bytes = []

abbrev pub echo_table : Answers → (ℕ → Bool) → ℕ → List ℕ → List ℕ
echo_table a set i [] = []
echo_table a set i (sd ∷ sds) = echo_slot (set sd) sd (a.read i) ∷ echo_table a set (suc i) sds

abbrev pub echo_all : Answers → (ℕ → Bool) → ℕ → List ℕ → List Action
echo_all a set i [] = []
echo_all a set i (sd ∷ sds) = echo (set sd) sd (a.read i) ++ echo_all a set (suc i) sds

before_zero-NoZero : (bytes : Bytes) → NoZero bytes → before_zero bytes ≡ bytes
unfolding before_zero
before_zero-NoZero [] h = refl
before_zero-NoZero (c ∷ cs) h = rw (h.0, before_zero-NoZero cs h.1) refl

answer-echo :
    (sd : ℕ) (o : Option Bytes)
    → Plain o
    → answer false sd o ≡ done (echo_slot true sd o, echo true sd o)
unfolding answer
answer-echo sd none h = absurd h
answer-echo sd (some []) h = refl
answer-echo sd (some (c ∷ cs)) h =
    let fits : ltb (suc (length cs)) 1024 ≡ true = ground (arith, h.0) in
    rw (fits, before_zero-NoZero (c ∷ cs) h.1) refl

serve_slot-echo :
    (a : Answers) (set : Bool) (i sd : ℕ)
    → (set ≡ true → Plain (a.read i) × (a.broken sd ≡ false))
    → serve_slot a set i sd ≡ done (echo_slot set sd (a.read i), echo set sd (a.read i))
unfolding serve_slot
serve_slot-echo a true i sd h = rw ((h refl).1) (answer-echo sd (a.read i) (h refl).0)
serve_slot-echo a false i sd h = refl

serve_clients-echo :
    (a : Answers) (set : ℕ → Bool) (i : ℕ) (table : List ℕ)
    → AllPlain a set i table
    → serve_clients a set i table ≡ done (echo_table a set i table, echo_all a set i table)
unfolding serve_clients
serve_clients-echo a set i [] h = refl
serve_clients-echo a set i (sd ∷ sds) h =
    rw (serve_slot-echo a (set sd) i sd h.0, serve_clients-echo a set (suc i) sds h.1) refl

-- A turn in which every ready client sends less than 1024 bytes, none of them zero, and no send to such
-- a client raises SIGPIPE, sends each of
-- them back to the client whole, closes the connections that ended, frees just their slots, and
-- does nothing to the clients that are not ready. `table'` and `out` are the table and the actions
-- after a new connection.
pub turn-echo :
    (a : Answers) (master : ℕ) (table table' : List ℕ) (out : List Action)
    → master < 1024
    → all_fit table ≡ true
    → accept_client a master table ≡ done (table', out)
    → all_fit table' ≡ true
    → AllPlain a (is_set a master table) 0 table'
    → turn a master table
      ≡ done (
        echo_table a (is_set a master table) 0 table',
        out ++ echo_all a (is_set a master table) 0 table',
      )
unfolding turn serve_table
turn-echo a master table table' out lt fit new fit' h =
    let small : ltb master 1024 ≡ true = ground arith in
    rw (small, fit, new, fit', serve_clients-echo a (is_set a master table) 0 table' h) refl
