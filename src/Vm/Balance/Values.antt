-- ===== src/Vm/Balance/Values.antt =====
-- The interpreter restores the static link and the frames, and leaves code and functions alone.
use cpp_custom.Prelude.{Option, none, some, suc, zero, ℕ, ◌==◌}
use cpp_custom.Vm.Balance.Keeps.{
  Keeps-refl, Safe, Safe-bind, Safe-branch, Safe-get_scope, Safe-get_symbol, Safe-pure, primitives,
}
use cpp_custom.Vm.Resolve.{
  as_property, entry_value, find_in_list, find_in_scopes, find_symbol, found_symbol, frame_value,
  literal_value, or_else, primary_atom_to_datum, primary_by, resolve_name, resolve_symbol,
  resolve_symbol_by, resolve_value, resolve_value_by, slot_addr, symbol_value,
}
use cpp_custom.Vm.Stack.{before, pop_datum, push_atom, push_datum, push_number, push_symbol}
use cpp_custom.Vm.State.{M, branch, pure, ◌>>=◌}
use cpp_custom.Vm.Types.{
  Addr, Atom, AtomType, Datum, DatumType, EntryValue, Frame, Scope, Symbol, SymbolType,
}

pub Safe-before : (p : Addr) (k : ℕ) → Safe (before p k)
unfolding before
Safe-before p k = search primitives

pub Safe-pop_datum : Safe pop_datum
unfolding pop_datum
Safe-pop_datum = search (primitives, Safe-before)

pub Safe-push_datum : (d : Addr) → Safe (push_datum d)
unfolding push_datum
Safe-push_datum d = search primitives

pub Safe-push_atom : (a : ℕ) → Safe (push_atom a)
unfolding push_atom
Safe-push_atom a = search primitives depth 8

pub Safe-push_number : (v : ℕ) → Safe (push_number v)
unfolding push_number
Safe-push_number v = search primitives depth 8

pub Safe-push_symbol : (sym scope : ℕ) → Safe (push_symbol sym scope)
unfolding push_symbol
Safe-push_symbol sym scope = search primitives depth 12

Safe-find_in_list : (f : ℕ) (sym : Option ℕ) (key : ℕ) → Safe (find_in_list f sym key)
unfolding find_in_list
Safe-find_in_list zero sym key = record { keeps = λ m. tt }
Safe-find_in_list (suc f) none key = record { keeps = Keeps-refl }
Safe-find_in_list (suc f) (some i) key = record {
  keeps =
      let rest : (s : Symbol) → Safe (find_in_list f s.next key) =
        λ s. Safe-find_in_list f s.next key in
      let step : (s : Symbol)
          → Safe (branch (s.key == key) (pure (some i)) (find_in_list f s.next key)) =
        λ s. Safe-branch (s.key == key) (Safe-pure (some i)) (rest s) in
      (Safe-bind (Safe-get_symbol i) step).keeps;
}

Safe-or_else : (o : Option ℕ) {x : M (Option ℕ)} → Safe x → Safe (or_else o x)
unfolding or_else
Safe-or_else none h = h
Safe-or_else (some s) h = Safe-pure (some s)

Safe-find_in_scopes : (f : ℕ) (scope : Option ℕ) (key : ℕ) → Safe (find_in_scopes f scope key)
unfolding find_in_scopes
Safe-find_in_scopes zero scope key = record { keeps = λ m. tt }
Safe-find_in_scopes (suc f) none key = record { keeps = Keeps-refl }
Safe-find_in_scopes (suc f) (some i) key = record {
  keeps = λ m.
      let rest : (sc : Scope) → Safe (find_in_scopes f sc.parent key) =
        λ sc. Safe-find_in_scopes f sc.parent key in
      let step : (sc : Scope)
          → Safe (
              find_in_list (suc m.next) sc.list key >>= λ found.
              or_else found (find_in_scopes f sc.parent key)) =
        λ sc.
          Safe-bind (Safe-find_in_list (suc m.next) sc.list key)
            λ found. Safe-or_else found (rest sc) in
      (Safe-bind (Safe-get_scope i) step).keeps m;
}

Safe-find_symbol : (scope : Option ℕ) (key : ℕ) → Safe (find_symbol scope key)
unfolding find_symbol
Safe-find_symbol scope key = record {
  keeps = λ m. (Safe-find_in_scopes (suc m.next) scope key).keeps m;
}

Safe-found_symbol : (dp : Addr) (d : Datum) (o : Option ℕ) → Safe (found_symbol dp d o)
unfolding found_symbol
Safe-found_symbol dp d none = search primitives
Safe-found_symbol dp d (some s) = search primitives

Safe-resolve_name : (t : AtomType) (dp : Addr) (d : Datum) (i : ℕ) → Safe (resolve_name t dp d i)
unfolding resolve_name
Safe-resolve_name AtomType.name dp d i = search (primitives, Safe-find_symbol, Safe-found_symbol)
Safe-resolve_name AtomType.number dp d i = search primitives

Safe-resolve_symbol_by : (t : DatumType) (dp : Addr) (d : Datum) → Safe (resolve_symbol_by t dp d)
unfolding resolve_symbol_by
Safe-resolve_symbol_by DatumType.atom dp d = search (primitives, Safe-resolve_name)
Safe-resolve_symbol_by _ dp d = search primitives

pub Safe-resolve_symbol : (dp : Addr) → Safe (resolve_symbol dp)
unfolding resolve_symbol
Safe-resolve_symbol dp = search (primitives, Safe-resolve_symbol_by)

Safe-literal_value :
    (t : AtomType) (dp : Addr) (d : Datum) (a : Atom) → Safe (literal_value t dp d a)
unfolding literal_value
Safe-literal_value AtomType.number dp d a = search primitives
Safe-literal_value AtomType.name dp d a = search primitives

Safe-primary_by : (t : DatumType) (dp : Addr) (d : Datum) → Safe (primary_by t dp d)
unfolding primary_by
Safe-primary_by DatumType.atom dp d = search (primitives, Safe-literal_value)
Safe-primary_by _ dp d = search primitives

Safe-primary_atom_to_datum : (dp : Addr) → Safe (primary_atom_to_datum dp)
unfolding primary_atom_to_datum
Safe-primary_atom_to_datum dp = search (primitives, Safe-primary_by)

pub Safe-as_property : (v : EntryValue) → Safe (as_property v)
unfolding as_property
Safe-as_property (EntryValue.property p) = search primitives
Safe-as_property _ = search primitives

pub Safe-slot_addr : (t : SymbolType) (f : Frame) (k : ℕ) → Safe (slot_addr t f k)
unfolding slot_addr
Safe-slot_addr SymbolType.argument f k = search primitives
Safe-slot_addr _ f k = search primitives

Safe-frame_value : (dp : Addr) (s : Symbol) (o : Option Frame) → Safe (frame_value dp s o)
unfolding frame_value
Safe-frame_value dp s none = search primitives
Safe-frame_value dp s (some f) =
    search (primitives, Safe-slot_addr, Safe-primary_atom_to_datum) depth 10

Safe-entry_value : (v : EntryValue) (dp : Addr) (s : Symbol) → Safe (entry_value v dp s)
unfolding entry_value
Safe-entry_value (EntryValue.datum a) dp s = search (primitives, Safe-primary_atom_to_datum) depth 8
Safe-entry_value (EntryValue.property p) dp s = search primitives
Safe-entry_value EntryValue.null dp s = search (primitives, Safe-frame_value)

Safe-symbol_value : (t : SymbolType) (dp : Addr) (s : Symbol) → Safe (symbol_value t dp s)
unfolding symbol_value
Safe-symbol_value SymbolType.property dp s =
    search (primitives, Safe-as_property, Safe-primary_atom_to_datum) depth 10
Safe-symbol_value _ dp s = Safe-entry_value s.value dp s

Safe-resolve_value_by : (t : DatumType) (dp : Addr) (d : Datum) → Safe (resolve_value_by t dp d)
unfolding resolve_value_by
Safe-resolve_value_by DatumType.symbol dp d = search (primitives, Safe-symbol_value) depth 8
Safe-resolve_value_by _ dp d = Safe-primary_atom_to_datum dp

pub Safe-resolve_value : (dp : Addr) → Safe (resolve_value dp)
unfolding resolve_value
Safe-resolve_value dp = search (primitives, Safe-resolve_symbol, Safe-resolve_value_by) depth 8

pub ruleset calls = (
  primitives, Safe-before, Safe-pop_datum, Safe-push_datum, Safe-push_atom, Safe-push_number,
  Safe-push_symbol, Safe-resolve_symbol, Safe-resolve_value, Safe-as_property, Safe-slot_addr,
)
