-- ===== src/Vm/Codegen.antt =====
-- emit1, emit2, generateAtom, generateCode, dumpScope and the Context of main.
use cpp_custom.Prelude.{
  Bytes, List, Option, [], codes, if◌then◌else◌, leb, length, ltb, none, some, suc, zero, ℕ, ◌&&◌,
  ◌++◌, ◌+◌, ◌==◌, ◌∷◌,
}
use cpp_custom.Vm.Interp.{code_interpret, zero_datum}
use cpp_custom.Vm.Stack.{push_symbol}
use cpp_custom.Vm.State.{
  Cell, M, Machine, Outcome, branch, deref, done, get_atom, get_scope, get_script, get_static_link,
  get_symbol, get_unset_value, load, new_atom, new_datum, new_function, new_prop, new_script,
  new_symbol, out_of_fuel, pure, put_script, put_symbol, store, undefined, update, ◌>>=◌, ◌>>◌,
}
use cpp_custom.Vm.Types.{
  Addr, AtomType, DatumType, EntryValue, OpType, Script, SymbolType, addr, op_code,
}

-- The bytes behind the code so far; a write past the buffer is undefined.
unfoldable pub emit : ℕ → List ℕ → M (Unit {0})
emit script bytes = do
  sc ← get_script script
  branch (leb (length sc.code + length bytes) sc.limit)
      (put_script script (record sc { code = sc.code ++ bytes })) (λ m. undefined)

unfoldable pub emit1 : ℕ → OpType → M (Unit {0})
emit1 script type = emit script (op_code type ∷ [])

unfoldable pub emit2 : ℕ → OpType → ℕ → M (Unit {0})
emit2 script type op1 = emit script (op_code type ∷ op1 ∷ [])

unfoldable pub generate_number : ℕ → M ℕ
generate_number val = new_atom (record { type = AtomType.number; nval = val; sval = [] })

unfoldable pub generate_name : Bytes → M ℕ
generate_name val = new_atom (record { type = AtomType.name; nval = 0; sval = val })

-- `script->atoms.push_back`
unfoldable pub push_back_atom : ℕ → ℕ → M (Unit {0})
push_back_atom script atom = do
  sc ← get_script script
  put_script script (record sc { atoms = sc.atoms ++ atom ∷ [] })

abbrev pub empty_script : Script
empty_script = record { atoms = []; args = none; code = []; limit = 1000 }

-- The lambda generateAddMethod.
unfoldable pub generate_add_method : M ℕ
generate_add_method = do
  script ← new_script empty_script
  twelve ← generate_number 12
  push_back_atom script twelve
  three ← generate_number 3
  push_back_atom script three
  a ← generate_name (codes "a")
  push_back_atom script a
  arg ← generate_name (codes "arg")
  push_back_atom script arg
  emit2 script OpType.number 0
  emit2 script OpType.name 3
  emit1 script OpType.add
  emit2 script OpType.number 1
  emit1 script OpType.add
  emit2 script OpType.name 2
  emit1 script OpType.assign
  emit2 script OpType.name 2
  emit2 script OpType.return 1
  unset ← get_unset_value
  sym ← new_symbol (record {
    type = SymbolType.argument;
    slot = none;
    next = none;
    scope = none;
    key = arg;
    value = unset;
  })
  sc ← get_script script
  put_script script (record sc { args = some sym })
  pure script

unfoldable pub generate_code : ℕ → M (Unit {0})
generate_code script = do
  two ← generate_number 2
  push_back_atom script two
  three ← generate_number 3
  push_back_atom script three
  a ← generate_name (codes "a")
  push_back_atom script a
  add ← generate_name (codes "add")
  push_back_atom script add
  emit2 script OpType.number 0
  emit2 script OpType.number 1
  emit1 script OpType.add
  emit2 script OpType.name 2
  emit1 script OpType.assign
  emit2 script OpType.name 3
  emit2 script OpType.name 2
  emit2 script OpType.call 1
  emit2 script OpType.name 2
  emit1 script OpType.assign
  method ← generate_add_method
  link ← get_static_link
  unset ← get_unset_value
  sym ← new_symbol (record {
    type = SymbolType.property;
    slot = none;
    next = none;
    scope = some link;
    key = add;
    value = unset;
  })
  fund ← new_datum zero_datum
  fun ← new_function (record { name = add; script = method; slink = link })
  store fund
      (record { type = DatumType.function; nval = some 0; atom = none; sym = none; fun = some fun })
  prop ← new_prop (record { datum = fund })
  s ← get_symbol sym
  put_symbol sym (record s { value = EntryValue.property prop })
  push_symbol sym link

-- The lines of dumpScope as pairs of name and number; a property is read through a `Datum *`.
unfoldable pub as_datum : EntryValue → M Addr
as_datum (EntryValue.datum a) = pure a
as_datum _ = λ m. undefined

unfoldable pub dump_symbols : ℕ → Option ℕ → M (List (Bytes × ℕ))
dump_symbols zero sym m = out_of_fuel
dump_symbols (suc f) none m = done [] m
dump_symbols (suc f) (some i) m =
    (do
      s ← get_symbol i
      a ← as_datum s.value
      d ← load a
      v ← deref d.nval
      atom ← get_atom s.key
      rest ← dump_symbols f s.next
      pure ((atom.sval, v) ∷ rest))
      m

unfoldable pub dump_scope : ℕ → M (List (Bytes × ℕ))
dump_scope scope m = (do sc ← get_scope scope; dump_symbols (suc m.next) sc.list) m

-- `new Context(1000)`: script 0, the stack in block 1, the outermost scope 2.
abbrev pub initial : EntryValue → Machine
initial unset = record {
  cell = λ b o. if b == 1 && ltb o 1000 then Cell.indeterminate else Cell.unallocated;
  atoms = λ _. none;
  symbols = λ _. none;
  scopes = update (λ _. none) 2 (some (record { list = none; parent = none }));
  props = λ _. none;
  functions = λ _. none;
  scripts = update (λ _. none) 0 (some empty_script);
  next = 3;
  ptr = addr 1 0;
  frames = [];
  static_link = 2;
  unset_value = unset;
}

-- `main` up to the end of codeInterpret, and what dumpScope then prints.
unfoldable pub main : ℕ → EntryValue → Outcome (List (Bytes × ℕ))
main fuel unset =
    (do
      generate_code 0
      result ← new_datum zero_datum
      link ← get_static_link
      code_interpret fuel 0 link result
      dump_scope link)
      (initial unset)
