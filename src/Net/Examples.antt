-- ===== src/Net/Examples.antt =====
-- The servers with two clients: their theorems at concrete inputs.
use cpp_custom.Prelude.{
  Bytes, List, Option, [], ◌∷◌, true, false, some, ℕ, ◌≡◌, refl, arith, ◌==◌, if◌then◌else◌, codes,
  length, replicate,
}
use cpp_custom.Net.Select.{
  Answers, Action, all_fit, is_set, add_client, message, accept_client, turn, done, undefined, send,
  close,
}
use cpp_custom.Net.Echo.{turn-echo}
use cpp_custom.Net.Overflow.{turn-Overflows}
use cpp_custom.Net.Serving.{Calls, set_up, main}
use cpp_custom.Net.Safe.{main-Fits}

abbrev read_from : ℕ → Option Bytes
read_from i = if i == 0 then some (codes "hi") else some []

-- Two clients are ready, and a third one connects.
abbrev answers : Answers
answers = record {
  failed = false;
  ready = λ fd. true;
  accept = some 9;
  read = read_from;
  broken = λ fd. false;
}

abbrev two_clients : List ℕ
two_clients = 5 ∷ 6 ∷ 0 ∷ 0 ∷ []

turn-echo_example :
    turn answers 3 two_clients
    ≡ done (5 ∷ 0 ∷ 9 ∷ 0 ∷ [], send 9 message ∷ send 5 (codes "hi") ∷ close 6 ∷ [])
unfolding is_set accept_client add_client
turn-echo_example =
    turn-echo answers 3 two_clients (5 ∷ 6 ∷ 9 ∷ 0 ∷ []) (send 9 message ∷ []) (omega arith) refl
      refl refl
      (
        (λ e. ((omega arith, (refl, (refl, tt))), refl)),
        ((λ e. ((omega arith, tt), refl)), ((λ e. ground arith), ((λ e. ground arith), tt))),
      )

-- The first client sends as many bytes as the buffer holds.
abbrev full_answers : Answers
full_answers = record answers { read = λ i. some (replicate 1024 120) }

turn-Overflows_example : turn full_answers 3 two_clients ≡ undefined
unfolding is_set accept_client add_client
turn-Overflows_example =
    turn-Overflows full_answers 3 two_clients (5 ∷ 6 ∷ 9 ∷ 0 ∷ []) (send 9 message ∷ []) 0 5 refl
      (λ fd. refl) refl refl (omega arith)

abbrev calls : Calls
calls = record { socket = some 3; options = true; bound = true; listens = true }

-- A client that has connected sends two bytes in each of two turns.
abbrev greetings : List Answers
greetings =
    record answers { read = λ i. some (codes "hi") }
    ∷ record answers { accept = some 10; read = λ i. some (codes "ho") }
    ∷ []

main-Fits_example :
    (table : List ℕ) × (out : List Action) × (main calls greetings ≡ done (table, out))
    × (all_fit table ≡ true)
    × (length table ≡ 30)
unfolding set_up
main-Fits_example = main-Fits calls greetings 3 refl (omega arith) (
  omega arith,
  (λ i. (omega arith, (refl, (refl, tt)))),
  (λ fd. refl),
  (omega arith, (λ i. (omega arith, (refl, (refl, tt)))), (λ fd. refl), tt),
)
