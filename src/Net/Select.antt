-- ===== src/Net/Select.antt =====
-- socket/tcp-socket-server-select.cpp: one turn of the server's loop.
use cpp_custom.Prelude.{
  Bool, Bytes, List, Option, [], ◌∷◌, ◌++◌, true, false, ◌&&◌, ◌||◌, none, some, ℕ, suc, ltb, ◌==◌,
  if◌then◌else◌, codes, length, set, replicate,
}

-- What select and the calls behind it answer in one turn. Where select fails it leaves the set as
-- it was. `accept` gives `none` on an error; `read` gives `none` on an error and no byte at the
-- end of the connection, for the slot of the table that it is asked for. `broken` tells whether a send on
-- a socket raises SIGPIPE, which the server neither handles nor ignores.
pub record Answers : Type 0 where
  pub failed : Bool
  pub ready : ℕ → Bool
  pub accept : Option ℕ
  pub read : ℕ → Option Bytes
  pub broken : ℕ → Bool

-- What the server does to a socket. A send whose result is short or -1 is only printed or ignored.
pub data Action : Type 0 where
  send : ℕ → Bytes → Action
  close : ℕ → Action

-- `undefined` is a write outside of `buffer` or of the set, `exits` the call of exit, `killed` the end
-- by SIGPIPE.
pub data Turn {ℓ} (A : Type ℓ) : Type ℓ where
  done : A → Turn A
  undefined : Turn A
  exits : Turn A
  killed : Turn A

infixl 5 ◌>>=◌
abbrev pub ◌>>=◌ {ℓ κ} : {A : Type ℓ} {B : Type κ} → Turn A → (A → Turn B) → Turn B
done a >>= f = f a
undefined >>= f = undefined
exits >>= f = exits
killed >>= f = killed

-- FD_SETSIZE and MAXLINE
abbrev pub fd_setsize : ℕ
fd_setsize = 1024

abbrev pub max_line : ℕ
max_line = 1024

-- `client_socket`
abbrev pub no_clients : List ℕ
no_clients = replicate 30 0

abbrev pub member : ℕ → List ℕ → Bool
member fd [] = false
member fd (sd ∷ sds) = sd == fd || member fd sds

-- FD_SET of the sockets of the table: `false` where one is too large for the set.
abbrev pub all_fit : List ℕ → Bool
all_fit [] = true
all_fit (sd ∷ sds) = ltb sd fd_setsize && all_fit sds

-- The set that select is given: the listening socket and the clients, but 0.
abbrev pub asked : ℕ → List ℕ → ℕ → Bool
asked master table fd = master == fd || ltb 0 fd && member fd table

-- FD_ISSET after select.
unfoldable pub is_set : Answers → ℕ → List ℕ → ℕ → Bool
is_set a master table fd = asked master table fd && (a.failed || a.ready fd)

-- The loop that puts a socket into the first slot that is 0.
unfoldable pub add_client : ℕ → List ℕ → List ℕ
add_client fd [] = []
add_client fd (sd ∷ sds) = let later = sd ∷ add_client fd sds in if sd == 0 then fd ∷ sds else later

abbrev pub message : Bytes
message = codes "ECHO Daemon v1.0\r\n"

-- A call of send, with what the code goes on with.
abbrev pub unless_broken {ℓ} : {A : Type ℓ} → Bool → A → Turn A
unless_broken true a = killed
unless_broken false a = done a

-- A new connection.
abbrev pub welcome : (ℕ → Bool) → List ℕ → Option ℕ → Turn (List ℕ × List Action)
welcome broken table none = exits
welcome broken table (some fd) =
    unless_broken (broken fd) (add_client fd table, send fd message ∷ [])

unfoldable pub accept_client : Answers → ℕ → List ℕ → Turn (List ℕ × List Action)
accept_client a master table =
    if is_set a master table master then welcome a.broken table a.accept else done (table, [])

-- `strlen`: the bytes before the first zero.
unfoldable pub before_zero : Bytes → Bytes
before_zero [] = []
before_zero (c ∷ cs) = let later = c ∷ before_zero cs in if c == 0 then [] else later

abbrev pub is_empty : Bytes → Bool
is_empty [] = true
is_empty (c ∷ cs) = false

-- What was read from a socket, with the slot afterwards. `buffer[valread] = 0` is outside of the
-- buffer where the read failed or filled it. `broken` is that of the socket.
unfoldable pub answer : Bool → ℕ → Option Bytes → Turn (ℕ × List Action)
answer broken sd none = undefined
answer broken sd (some bytes) =
    if is_empty bytes
    then done (0, close sd ∷ [])
    else if ltb (length bytes) max_line
    then unless_broken broken (sd, send sd (before_zero bytes) ∷ [])
    else undefined

unfoldable pub serve_slot : Answers → Bool → ℕ → ℕ → Turn (ℕ × List Action)
serve_slot a set i sd = if set then answer (a.broken sd) sd (a.read i) else done (sd, [])

-- The loop over the table from slot `i` on; `set` is FD_ISSET.
unfoldable pub serve_clients : Answers → (ℕ → Bool) → ℕ → List ℕ → Turn (List ℕ × List Action)
serve_clients a set i [] = done ([], [])
serve_clients a set i (sd ∷ sds) = do
  (sd', out) ← serve_slot a (set sd) i sd
  (sds', outs) ← serve_clients a set (suc i) sds
  done (sd' ∷ sds', out ++ outs)

-- FD_SET and FD_ISSET of a socket that is too large are outside of the set.
abbrev pub within {ℓ} : {A : Type ℓ} → Bool → Turn A → Turn A
within true t = t
within false t = undefined

unfoldable pub serve_table : Answers → (ℕ → Bool) → List ℕ → Turn (List ℕ × List Action)
serve_table a set table = within (all_fit table) (serve_clients a set 0 table)

abbrev pub serve_after : Answers → (ℕ → Bool) → List ℕ × List Action → Turn (List ℕ × List Action)
serve_after a set (table, out) =
    serve_table a set table >>= λ (table', outs). done (table', out ++ outs)

unfoldable pub turn : Answers → ℕ → List ℕ → Turn (List ℕ × List Action)
turn a master table =
    within (ltb master fd_setsize && all_fit table)
      (accept_client a master table >>= serve_after a (is_set a master table))
