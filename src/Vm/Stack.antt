-- ===== src/Vm/Stack.antt =====
-- popDatum, pushDatum, pushSymbol, pushAtom and pushNumber.
use cpp_custom.Prelude.{ltb, none, some, ℕ, ◌-◌}
use cpp_custom.Vm.State.{
  M, branch, get_ptr, get_scope, get_symbol, pure, put_scope, put_symbol, set_ptr, shift, store,
  undefined, ◌>>=◌, ◌>>◌,
}
use cpp_custom.Vm.Types.{Addr, Datum, DatumType, addr}

-- An address below the start of its block may not even be formed.
unfoldable pub before : Addr → ℕ → M Addr
before p k = branch (ltb p.off k) (λ m. undefined) (pure (addr p.block (p.off - k)))

unfoldable pub pop_datum : M Addr
pop_datum = do p ← get_ptr; q ← before p 1; set_ptr q; pure q

-- The pointer moves to the memory of `d`.
unfoldable pub push_datum : Addr → M (Unit {0})
push_datum d = set_ptr (shift d 1)

abbrev pub atom_datum : ℕ → Datum
atom_datum a = record { type = DatumType.atom; nval = none; atom = some a; sym = none; fun = none }

abbrev pub number_datum : ℕ → Datum
number_datum v = record {
  type = DatumType.number;
  nval = some v;
  atom = none;
  sym = none;
  fun = none;
}

unfoldable pub push_atom : ℕ → M (Unit {0})
push_atom a = do p ← get_ptr; store p (atom_datum a); set_ptr (shift p 1)

unfoldable pub push_number : ℕ → M (Unit {0})
push_number v = do p ← get_ptr; store p (number_datum v); set_ptr (shift p 1)

unfoldable pub push_symbol : ℕ → ℕ → M (Unit {0})
push_symbol sym scope = do
  sc ← get_scope scope
  s ← get_symbol sym
  put_symbol sym (record s { next = sc.list })
  put_scope scope (record sc { list = some sym })
