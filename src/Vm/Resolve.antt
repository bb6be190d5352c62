-- ===== src/Vm/Resolve.antt =====
-- findSymbol, resolveSymbol and resolveValue.
use cpp_custom.Prelude.{
  Bool, List, Option, [], false, if◌then◌else◌, none, some, suc, true, zero, ℕ, ◌==◌, ◌∷◌,
}
use cpp_custom.Vm.State.{
  M, branch, copy, deref, done, get_atom, get_frames, get_prop, get_scope, get_static_link,
  get_symbol, load, out_of_fuel, pure, shift, store, undefined, ◌>>=◌, ◌>>◌,
}
use cpp_custom.Vm.Types.{
  Addr, Atom, AtomType, Datum, DatumType, EntryValue, Frame, Symbol, SymbolType,
}

-- The `for` loop over `sym->next`, on fuel.
unfoldable pub find_in_list : ℕ → Option ℕ → ℕ → M (Option ℕ)
find_in_list zero sym key m = out_of_fuel
find_in_list (suc f) none key m = done none m
find_in_list (suc f) (some i) key m =
    (do s ← get_symbol i; branch (s.key == key) (pure (some i)) (find_in_list f s.next key)) m

-- What the loop found is returned, or the search goes on in the parent.
unfoldable pub or_else : Option ℕ → M (Option ℕ) → M (Option ℕ)
or_else none x = x
or_else (some s) x = pure (some s)

-- The fuel of each loop is the number of objects of the machine.
unfoldable pub find_in_scopes : ℕ → Option ℕ → ℕ → M (Option ℕ)
find_in_scopes zero scope key m = out_of_fuel
find_in_scopes (suc f) none key m = done none m
find_in_scopes (suc f) (some i) key m =
    (do
      sc ← get_scope i
      found ← find_in_list (suc m.next) sc.list key
      or_else found (find_in_scopes f sc.parent key))
      m

unfoldable pub find_symbol : Option ℕ → ℕ → M (Option ℕ)
find_symbol scope key m = find_in_scopes (suc m.next) scope key m

-- `dp` becomes a symbol if the search found one.
unfoldable pub found_symbol : Addr → Datum → Option ℕ → M Bool
found_symbol dp d none = pure false
found_symbol dp d (some s) = do
  store dp (record d { type = DatumType.symbol; sym = some s })
  pure true

unfoldable pub resolve_name : AtomType → Addr → Datum → ℕ → M Bool
resolve_name AtomType.name dp d atom = do
  link ← get_static_link
  sym ← find_symbol (some link) atom
  found_symbol dp d sym
resolve_name AtomType.number dp d atom = pure false

unfoldable pub resolve_symbol_by : DatumType → Addr → Datum → M Bool
resolve_symbol_by DatumType.atom dp d = do
  i ← deref d.atom
  atom ← get_atom i
  resolve_name atom.type dp d i
resolve_symbol_by DatumType.symbol dp d = pure true
resolve_symbol_by _ dp d = pure false

unfoldable pub resolve_symbol : Addr → M Bool
resolve_symbol dp = do d ← load dp; resolve_symbol_by d.type dp d

unfoldable pub literal_value : AtomType → Addr → Datum → Atom → M Bool
literal_value AtomType.number dp d atom = do
  store dp (record d { type = DatumType.number; nval = some atom.nval })
  pure true
literal_value AtomType.name dp d atom = pure false

unfoldable pub primary_by : DatumType → Addr → Datum → M Bool
primary_by DatumType.atom dp d = do
  i ← deref d.atom
  atom ← get_atom i
  literal_value atom.type dp d atom
primary_by _ dp d = pure false

-- The lambda `primaryAtomToDatum` of resolveValue.
unfoldable pub primary_atom_to_datum : Addr → M Bool
primary_atom_to_datum dp = do d ← load dp; primary_by d.type dp d

abbrev pub same_scope : Option ℕ → ℕ → Bool
same_scope none s = false
same_scope (some t) s = t == s

-- The innermost frame of that scope.
unfoldable pub find_frame : List Frame → Option ℕ → Option Frame
find_frame [] scope = none
find_frame (f ∷ fs) scope = if same_scope scope f.scope then some f else find_frame fs scope

unfoldable pub as_property : EntryValue → M ℕ
as_property (EntryValue.property p) = pure p
as_property _ = λ m. undefined

-- Where a symbol of a frame keeps its value.
unfoldable pub slot_addr : SymbolType → Frame → ℕ → M Addr
slot_addr SymbolType.argument f k = pure (shift f.argv k)
slot_addr SymbolType.variable f k = pure (shift f.vars k)
slot_addr SymbolType.property f k = λ m. undefined

unfoldable pub frame_value : Addr → Symbol → Option Frame → M Bool
frame_value dp sym none = pure false
frame_value dp sym (some f) = do
  k ← deref sym.slot
  from ← slot_addr sym.type f k
  copy dp from
  primary_atom_to_datum dp
  pure true

-- A property here would be read through a `Datum *`.
unfoldable pub entry_value : EntryValue → Addr → Symbol → M Bool
entry_value (EntryValue.datum a) dp sym = do copy dp a; primary_atom_to_datum dp; pure true
entry_value (EntryValue.property p) dp sym = λ m. undefined
entry_value EntryValue.null dp sym = do
  frames ← get_frames
  frame_value dp sym (find_frame frames sym.scope)

unfoldable pub symbol_value : SymbolType → Addr → Symbol → M Bool
symbol_value SymbolType.property dp sym = do
  p ← as_property sym.value
  prop ← get_prop p
  copy dp prop.datum
  primary_atom_to_datum dp
  pure true
symbol_value _ dp sym = entry_value sym.value dp sym

unfoldable pub resolve_value_by : DatumType → Addr → Datum → M Bool
resolve_value_by DatumType.symbol dp d = do
  i ← deref d.sym
  sym ← get_symbol i
  symbol_value sym.type dp sym
resolve_value_by _ dp d = primary_atom_to_datum dp

unfoldable pub resolve_value : Addr → M Bool
resolve_value dp = do resolve_symbol dp; d ← load dp; resolve_value_by d.type dp d
