-- ===== src/Net/Safe.antt =====
-- Runs of the select server whose clients send short texts.
use cpp_custom.Prelude.{
  Bool, Bytes, List, Option, [], ◌∷◌, ◌++◌, true, false, none, some, ℕ, suc, ◌<◌, ◌≡◌, refl, ap,
  ◌∙◌, inl, inr, arith, ltb, ◌==◌, if◌then◌else◌, Bool-cases, length, set,
}
use cpp_custom.Net.Select.{
  Answers, Action, ◌>>=◌, no_clients, all_fit, is_set, add_client, message, welcome, accept_client,
  turn, done, send,
}
use cpp_custom.Net.Echo.{Plain, AllPlain, echo_slot, echo_table, echo_all, turn-echo}
use cpp_custom.Net.Serving.{Calls, set_up, run, main}

abbrev pub Small : Option ℕ → Type 0
Small none = ⊥
Small (some fd) = fd < 1024

-- In each turn an accept succeeds with a socket that the set holds, what is read is plain, and no send
-- raises SIGPIPE.
abbrev pub AllSmall : List Answers → Type 0
AllSmall [] = Unit {0}
AllSmall (a ∷ rest) =
    Small a.accept × ((i : ℕ) → Plain (a.read i)) × ((fd : ℕ) → a.broken fd ≡ false) × AllSmall rest

-- A table that the set holds, as long as another one.
abbrev Fits : List ℕ → List ℕ → Type 0
Fits table' table = (all_fit table' ≡ true) × (length table' ≡ length table)

add_client-Fits :
    (fd : ℕ) (table : List ℕ) → fd < 1024 → all_fit table ≡ true → Fits (add_client fd table) table
unfolding add_client
add_client-Fits fd [] lt h = (refl, refl)
add_client-Fits fd (sd ∷ sds) lt h =
    let (fit, long) = add_client-Fits fd sds lt (ground (arith, h)) in
    elim (Bool-cases (sd == 0)) [
      | inl free ↦ rw free (ground (arith, h, lt), refl)
      | inr taken ↦ rw taken (ground (arith, h, fit), ap suc long)
    ]

accept_client-Fits :
    (a : Answers) (master : ℕ) (table : List ℕ)
    → Small a.accept
    → ((fd : ℕ) → a.broken fd ≡ false)
    → all_fit table ≡ true
    → (table' : List ℕ) × (out : List Action) × (accept_client a master table ≡ done (table', out))
      × Fits table' table
unfolding accept_client
accept_client-Fits a master table small safe h =
    by_set (is_set a master table master) a.accept small
  where
    by_set :
        (set : Bool) (o : Option ℕ)
        → Small o
        → (table' : List ℕ) × (out : List Action) × ((if set
              then welcome a.broken table o
              else done (table, []))
            ≡ done (table', out))
          × Fits table' table
    by_set false o s = (table, [], refl, (h, refl))
    by_set true none s = absurd s
    by_set true (some fd) s =
        rw (safe fd) (add_client fd table, send fd message ∷ [], refl, add_client-Fits fd table s h)

echo_slot-small :
    (set : Bool) (sd : ℕ) (o : Option Bytes)
    → ltb sd 1024 ≡ true
    → ltb (echo_slot set sd o) 1024 ≡ true
echo_slot-small true sd (some []) h = refl
echo_slot-small true sd (some (c ∷ cs)) h = h
echo_slot-small true sd none h = h
echo_slot-small false sd o h = h

echo_table-Fits :
    (a : Answers) (set : ℕ → Bool) (i : ℕ) (table : List ℕ)
    → all_fit table ≡ true
    → Fits (echo_table a set i table) table
echo_table-Fits a set i [] h = (refl, refl)
echo_table-Fits a set i (sd ∷ sds) h =
    let (fit, long) = echo_table-Fits a set (suc i) sds (ground (arith, h)) in
    let small = echo_slot-small (set sd) sd (a.read i) (ground (arith, h)) in
    (rw (small, fit) refl, ap suc long)

all-AllPlain :
    (a : Answers) (set : ℕ → Bool) (i : ℕ) (table : List ℕ)
    → ((j : ℕ) → Plain (a.read j))
    → ((fd : ℕ) → a.broken fd ≡ false)
    → AllPlain a set i table
all-AllPlain a set i [] h safe = tt
all-AllPlain a set i (sd ∷ sds) h safe =
    ((λ e. (h i, safe sd)), all-AllPlain a set (suc i) sds h safe)

module _ (master : ℕ) (lt : master < 1024) where
  turn-Fits :
      (a : Answers) (table : List ℕ)
      → Small a.accept
      → ((i : ℕ) → Plain (a.read i))
      → ((fd : ℕ) → a.broken fd ≡ false)
      → all_fit table ≡ true
      → (table' : List ℕ) × (out : List Action) × (turn a master table ≡ done (table', out))
        × Fits table' table
  turn-Fits a table small plain safe h =
      let (new, greeting, accepts, (fit, long)) = accept_client-Fits a master table small safe h in
      let set = is_set a master table in
      let (fit', long') = echo_table-Fits a set 0 new fit in
      (
        echo_table a set 0 new,
        greeting ++ echo_all a set 0 new,
        turn-echo a master table new greeting lt h accepts fit
            (all-AllPlain a set 0 new plain safe),
        (fit', long' ∙ long),
      )

  run-Fits :
      (answers : List Answers) (table : List ℕ)
      → AllSmall answers
      → all_fit table ≡ true
      → (table' : List ℕ) × (out : List Action) × (run answers master table ≡ done (table', out))
        × Fits table' table
  unfolding run
  run-Fits [] table s h = (table, [], refl, (h, refl))
  run-Fits (a ∷ rest) table s h =
      let (t1, o1, e1, (f1, l1)) = turn-Fits a table s.0 s.1 s.2 h in
      let (t2, o2, e2, (f2, l2)) = run-Fits rest t1 s.3 f1 in
      (t2, o1 ++ o2, rw (e1, e2) refl, (f2, l2 ∙ l1))

-- If the server starts on a socket below 1024 and in every turn an accept gives a socket below 1024
-- and each read less than 1024 bytes, none of them zero, and no send raises SIGPIPE, every number of
-- turns goes through: no turn ends the program or writes outside of its buffer, its set or its table of 30 clients.
pub main-Fits :
    (calls : Calls) (answers : List Answers) (master : ℕ)
    → set_up calls calls.socket ≡ done master
    → master < 1024
    → AllSmall answers
    → (table : List ℕ) × (out : List Action) × (main calls answers ≡ done (table, out))
      × (all_fit table ≡ true)
      × (length table ≡ 30)
unfolding main
main-Fits calls answers master started lt small =
    let (table, out, e, (fit, long)) = run-Fits master lt answers no_clients small refl in
    (table, out, ap (λ t. t >>= λ m. run answers m no_clients) started ∙ e, fit, long)
