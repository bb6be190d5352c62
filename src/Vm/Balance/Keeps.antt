-- ===== src/Vm/Balance/Keeps.antt =====
-- What no part of the interpreter changes, and the rules to show it of the monad's programs.
use cpp_custom.Prelude.{
  Bool, List, Option, [], arith, false, none, refl, some, true, ℕ, ◌∙◌, ◌∷◌, ◌≡◌, ◌≤◌,
}
use cpp_custom.Vm.State.{
  Cell, M, Machine, Outcome, and_then, branch, copy, deref, done, get_atom, get_frames,
  get_function, get_prop, get_ptr, get_scope, get_script, get_static_link, get_symbol,
  get_unset_value, load, new_datum, new_scope, new_symbol, out_of_fuel, pure, put_scope, put_symbol,
  read_cell, set_ptr, store, thrown, undefined, write_cell, ◌>>=◌,
}
use cpp_custom.Vm.Types.{Addr, Datum, Frame, Scope, Symbol}

-- A postcondition of the runs that end.
abbrev pub Ensures : {A : Type 0} → (A → Machine → Type 0) → Outcome A → Type 0
Ensures P (done a m) = P a m
Ensures P undefined = Unit
Ensures P (thrown _) = Unit
Ensures P out_of_fuel = Unit

-- The frames, the number of local variables of the innermost one aside.
abbrev pub frozen : List Frame → List Frame
frozen [] = []
frozen (f ∷ fs) = record f { nvars = 0 } ∷ fs

pub record Keeps (m m' : Machine) : Type 0 where
  pub link : m'.static_link ≡ m.static_link
  pub frames : frozen m'.frames ≡ frozen m.frames
  pub scripts : m'.scripts ≡ m.scripts
  pub atoms : m'.atoms ≡ m.atoms
  pub functions : m'.functions ≡ m.functions
  pub props : m'.props ≡ m.props
  pub unset : m'.unset_value ≡ m.unset_value
  pub next : m.next ≤ m'.next

pub Keeps-refl : (m : Machine) → Keeps m m
Keeps-refl m = record {
  link = refl;
  frames = refl;
  scripts = refl;
  atoms = refl;
  functions = refl;
  props = refl;
  unset = refl;
  next = omega arith;
}

pub Keeps-trans : {l m n : Machine} → Keeps l m → Keeps m n → Keeps l n
Keeps-trans h k = record {
  link = k.link ∙ h.link;
  frames = k.frames ∙ h.frames;
  scripts = k.scripts ∙ h.scripts;
  atoms = k.atoms ∙ h.atoms;
  functions = k.functions ∙ h.functions;
  props = k.props ∙ h.props;
  unset = k.unset ∙ h.unset;
  next = omega arith;
}

pub record Safe {A : Type 0} (x : M A) : Type 0 where
  pub keeps : (m : Machine) → Ensures (λ _ m'. Keeps m m') (x m)

pub Ensures-mono :
    {A : Type 0} {P Q : A → Machine → Type 0} (r : Outcome A)
    → ((a : A) (m : Machine) → P a m → Q a m)
    → Ensures P r
    → Ensures Q r
Ensures-mono (done a m) w p = w a m p
Ensures-mono undefined w p = tt
Ensures-mono (thrown e) w p = tt
Ensures-mono out_of_fuel w p = tt

pub Ensures-and_then :
    {A B : Type 0} {P : A → Machine → Type 0} (Q : B → Machine → Type 0) (r : Outcome A)
    (f : A → M B)
    → Ensures P r
    → ((a : A) (m : Machine) → P a m → Ensures Q (f a m))
    → Ensures Q (and_then r f)
unfolding and_then
Ensures-and_then Q (done a m) f p k = k a m p
Ensures-and_then Q undefined f p k = tt
Ensures-and_then Q (thrown e) f p k = tt
Ensures-and_then Q out_of_fuel f p k = tt

module _ {A B : Type 0} where
  pub Safe-bind : {x : M A} {f : A → M B} → Safe x → ((a : A) → Safe (f a)) → Safe (x >>= f)
  unfolding ◌>>=◌
  Safe-bind {x} {f} h k = record {
    keeps = λ m.
        Ensures-and_then (λ _ n. Keeps m n) (x m) f (h.keeps m)
          λ a m' p. Ensures-mono (f a m') (λ b n q. Keeps-trans p q) ((k a).keeps m');
  }

pub Safe-pure : {A : Type 0} (a : A) → Safe (pure a)
unfolding pure
Safe-pure a = record { keeps = Keeps-refl }

pub Safe-deref : {A : Type 0} (o : Option A) → Safe (deref o)
unfolding deref
Safe-deref none = record { keeps = λ m. tt }
Safe-deref (some a) = record { keeps = Keeps-refl }

pub Safe-read_cell : (c : Cell) → Safe (read_cell c)
unfolding read_cell
Safe-read_cell Cell.unallocated = record { keeps = λ m. tt }
Safe-read_cell Cell.indeterminate = record { keeps = λ m. tt }
Safe-read_cell (Cell.holds d) = record { keeps = Keeps-refl }

pub Safe-load : (p : Addr) → Safe (load p)
unfolding load
Safe-load p = record { keeps = λ m. (Safe-read_cell (m.cell p.block p.off)).keeps m }

pub Safe-write_cell : (c : Cell) (p : Addr) (d : Datum) → Safe (write_cell c p d)
unfolding write_cell
Safe-write_cell Cell.unallocated p d = record { keeps = λ m. tt }
Safe-write_cell Cell.indeterminate p d = record { keeps = λ m. ground arith }
Safe-write_cell (Cell.holds e) p d = record { keeps = λ m. ground arith }

pub Safe-store : (p : Addr) (d : Datum) → Safe (store p d)
unfolding store
Safe-store p d = record { keeps = λ m. (Safe-write_cell (m.cell p.block p.off) p d).keeps m }

pub Safe-copy : (to from : Addr) → Safe (copy to from)
unfolding copy
Safe-copy to from = Safe-bind (Safe-load from) (Safe-store to)

pub Safe-new_datum : (d : Datum) → Safe (new_datum d)
unfolding new_datum
Safe-new_datum d = record { keeps = λ m. ground arith }

pub Safe-get_atom : (i : ℕ) → Safe (get_atom i)
unfolding get_atom
Safe-get_atom i = record { keeps = λ m. (Safe-deref (m.atoms i)).keeps m }

pub Safe-get_symbol : (i : ℕ) → Safe (get_symbol i)
unfolding get_symbol
Safe-get_symbol i = record { keeps = λ m. (Safe-deref (m.symbols i)).keeps m }

pub Safe-put_symbol : (i : ℕ) (s : Symbol) → Safe (put_symbol i s)
unfolding put_symbol
Safe-put_symbol i s = record { keeps = λ m. ground arith }

pub Safe-get_scope : (i : ℕ) → Safe (get_scope i)
unfolding get_scope
Safe-get_scope i = record { keeps = λ m. (Safe-deref (m.scopes i)).keeps m }

pub Safe-put_scope : (i : ℕ) (s : Scope) → Safe (put_scope i s)
unfolding put_scope
Safe-put_scope i s = record { keeps = λ m. ground arith }

pub Safe-get_script : (i : ℕ) → Safe (get_script i)
unfolding get_script
Safe-get_script i = record { keeps = λ m. (Safe-deref (m.scripts i)).keeps m }

pub Safe-get_prop : (i : ℕ) → Safe (get_prop i)
unfolding get_prop
Safe-get_prop i = record { keeps = λ m. (Safe-deref (m.props i)).keeps m }

pub Safe-get_function : (i : ℕ) → Safe (get_function i)
unfolding get_function
Safe-get_function i = record { keeps = λ m. (Safe-deref (m.functions i)).keeps m }

pub Safe-new_symbol : (s : Symbol) → Safe (new_symbol s)
unfolding new_symbol
Safe-new_symbol s = record { keeps = λ m. ground arith }

pub Safe-new_scope : (s : Scope) → Safe (new_scope s)
unfolding new_scope
Safe-new_scope s = record { keeps = λ m. ground arith }

pub Safe-get_ptr : Safe get_ptr
unfolding get_ptr
Safe-get_ptr = record { keeps = Keeps-refl }

pub Safe-set_ptr : (p : Addr) → Safe (set_ptr p)
unfolding set_ptr
Safe-set_ptr p = record { keeps = λ m. ground arith }

pub Safe-get_frames : Safe get_frames
unfolding get_frames
Safe-get_frames = record { keeps = Keeps-refl }

pub Safe-get_static_link : Safe get_static_link
unfolding get_static_link
Safe-get_static_link = record { keeps = Keeps-refl }

pub Safe-get_unset_value : Safe get_unset_value
unfolding get_unset_value
Safe-get_unset_value = record { keeps = Keeps-refl }

pub Safe-undefined : {A : Type 0} → Safe {A = A} (λ m. undefined)
Safe-undefined = record { keeps = λ m. tt }

pub Safe-branch : {A : Type 0} {x y : M A} (b : Bool) → Safe x → Safe y → Safe (branch b x y)
unfolding branch
Safe-branch true h k = h
Safe-branch false h k = k

pub ruleset primitives = (
  Safe-bind, Safe-pure, Safe-deref, Safe-load, Safe-store, Safe-copy, Safe-new_datum, Safe-get_atom,
  Safe-get_symbol, Safe-put_symbol, Safe-get_scope, Safe-put_scope, Safe-get_script, Safe-get_prop,
  Safe-get_function, Safe-new_symbol, Safe-new_scope, Safe-get_ptr, Safe-set_ptr, Safe-get_frames,
  Safe-get_static_link, Safe-get_unset_value, Safe-undefined, Safe-branch,
)
