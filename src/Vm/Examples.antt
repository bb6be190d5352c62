-- ===== src/Vm/Examples.antt =====
-- Runs and machines at hand: tests of the stack machine, and its theorems at concrete inputs.
use cpp_custom.Prelude.{Option, [], arith, if◌then◌else◌, none, refl, some, ℕ, ◌==◌, ◌∷◌, ◌≡◌}
use cpp_custom.Vm.Balance.Calls.{code_interpret-Keeps}
use cpp_custom.Vm.Balance.Keeps.{Ensures, Keeps}
use cpp_custom.Vm.Codegen.{initial}
use cpp_custom.Vm.Expr.Syntax.{Expr}
use cpp_custom.Vm.Interp.{code_interpret, return_value}
use cpp_custom.Vm.Lookup.Chains.{Chain, Nest, end_of, first, inside, outermost}
use cpp_custom.Vm.Lookup.Find.{find_symbol-first}
use cpp_custom.Vm.Lookup.Shadow.{push_symbol-find}
use cpp_custom.Vm.Resolve.{
  find_symbol, primary_atom_to_datum, primary_by, resolve_symbol, resolve_symbol_by, resolve_value,
  resolve_value_by,
}
use cpp_custom.Vm.Stack.{before, number_datum, pop_datum, push_symbol}
use cpp_custom.Vm.State.{Cell, Machine, done, opened, update, update₂}
use cpp_custom.Vm.Types.{Atom, AtomType, EntryValue, Scope, Script, Symbol, SymbolType, addr}

-- 2 + 3
abbrev two_and_three : Expr
two_and_three = Expr.sum (Expr.literal 0) (Expr.literal 1)

abbrev number_atom : ℕ → Atom
number_atom v = record { type = AtomType.number; nval = v; sval = [] }

abbrev sum_script : Script
sum_script = record { atoms = 7 ∷ 8 ∷ []; args = none; code = 0 ∷ 0 ∷ 0 ∷ 1 ∷ 2 ∷ []; limit = 1000 }

abbrev adder : Machine
adder = record (initial EntryValue.null) {
  atoms = update (update (λ _. none) 7 (some (number_atom 2))) 8 (some (number_atom 3));
  scripts = update (λ _. none) 0 (some sum_script);
  next = 9;
}

code_interpret-Keeps_example :
    Ensures (λ _ m'. Keeps adder m') (code_interpret 4 0 2 (addr 3 0) adder)
code_interpret-Keeps_example = code_interpret-Keeps 4 0 2 (addr 3 0) adder

-- A scope with one symbol, of key 7, and a second symbol that is not yet in a scope.
abbrev symbol_of : ℕ → Symbol
symbol_of key = record {
  type = SymbolType.variable;
  slot = none;
  next = none;
  scope = some 2;
  key = key;
  value = EntryValue.null;
}

abbrev one_scope : Scope
one_scope = record { list = some 3; parent = none }

abbrev scoped : Machine
scoped = record (initial EntryValue.null) {
  symbols = update (update (λ _. none) 3 (some (symbol_of 7))) 4 (some (symbol_of 7));
  scopes = update (λ _. none) 2 (some one_scope);
  next = 5;
}

scoped-Chain : Chain scoped.symbols 4 (some 3) (3 ∷ [])
scoped-Chain = Chain.link {s = symbol_of 7} (omega arith) refl end_of

scoped-Nest : Nest scoped.symbols scoped.scopes 5 5 (some 2) (3 ∷ [])
scoped-Nest =
    inside {sc = one_scope} (omega arith) refl
      (Chain.link {s = symbol_of 7} (omega arith) refl end_of) outermost refl

find_symbol-first_example :
    find_symbol (some 2) 7 scoped ≡ done (first scoped.symbols 7 (3 ∷ [])) scoped
find_symbol-first_example = find_symbol-first scoped 7 (some 2) (3 ∷ []) scoped-Nest

push_symbol-find_example :
    (m' : Machine) × (push_symbol 4 2 scoped ≡ done tt m')
    × ((key : ℕ) (o : Option ℕ)
        → find_symbol (some 2) key scoped ≡ done o scoped
        → find_symbol (some 2) key m' ≡ done (if 7 == key then some 4 else o) m')
push_symbol-find_example =
    push_symbol-find scoped 4 (symbol_of 7) 2 one_scope (3 ∷ []) [] (omega arith) (omega arith) refl
      refl scoped-Chain outermost

-- RETURN of the number 6 with an ADD behind it.
abbrev return_script : Script
return_script = record { atoms = []; args = none; code = 4 ∷ 1 ∷ 2 ∷ []; limit = 1000 }

abbrev returning : Machine
returning = record (initial EntryValue.null) {
  cell =
      update₂ (update₂ (λ _ _. Cell.unallocated) 1 0 (Cell.holds (number_datum 6))) 5 0
        Cell.indeterminate;
  ptr = addr 1 1;
  scripts = update (λ _. none) 0 (some return_script);
}

abbrev has_returned : Machine
has_returned = record returning {
  cell = update₂ returning.cell 5 0 (Cell.holds (number_datum 6));
  ptr = addr 1 0;
}

returns : return_value (addr 5 0) returning ≡ done tt has_returned
unfolding return_value pop_datum before resolve_symbol resolve_symbol_by resolve_value
    resolve_value_by primary_by primary_atom_to_datum opened
returns = refl
