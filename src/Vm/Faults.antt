-- ===== src/Vm/Faults.antt =====
-- Where the machine's memory goes wrong: the stack pointer after a call, variables that share a
-- stack cell, and code behind a RETURN.
use cpp_custom.Prelude.{List, [], arith, false, get_elem?, refl, some, suc, ℕ, ◌+◌, ◌≡◌}
use cpp_custom.Vm.Expr.Syntax.{get_elem?-lt}
use cpp_custom.Vm.Interp.{
  assign_by, assign_symbol, exec, exec_assign, exec_return, leave_call, loop, operand, push_result,
  return_value,
}
use cpp_custom.Vm.Resolve.{
  primary_atom_to_datum, primary_by, resolve_symbol, resolve_symbol_by, resolve_value,
  resolve_value_by,
}
use cpp_custom.Vm.Stack.{before, number_datum, pop_datum, push_atom, push_datum, push_number}
use cpp_custom.Vm.State.{Cell, Machine, done, opened, undefined, update, update₂}
use cpp_custom.Vm.Types.{
  Addr, Datum, DatumType, EntryValue, Frame, OpType, Script, Symbol, SymbolType, addr, is_undef,
  op_code, to_op,
}

-- If leave_call is given the address of a value in a block of one cell, the stack pointer stands behind
-- that value afterwards, and every push of an atom or a number writes outside of the block.
pub leave_call-outside :
    (down : List Frame) (argv : Addr) (m : Machine) (b : ℕ) (d : Datum)
    → m.cell b 0 ≡ Cell.holds d
    → is_undef d.type ≡ false
    → m.cell b 1 ≡ Cell.unallocated
    → (m' : Machine) × (leave_call down (argv, addr b 0) m ≡ done tt m')
      × (m'.ptr ≡ addr b 1)
      × ((a : ℕ) → push_atom a m' ≡ undefined)
      × ((v : ℕ) → push_number v m' ≡ undefined)
unfolding leave_call push_result push_datum push_atom push_number opened
leave_call-outside down argv m b d h t u = (
  record m { frames = down; ptr = addr b 1 },
  ground arith,
  refl,
  (λ a. ground arith),
  (λ v. ground arith),
)

-- In a machine without frames that has a variable and below it a number on the stack, ASSIGN stores the
-- address of the stack cell that was just popped: the variable and the top of the stack are then the same memory, and the next
-- number that is pushed becomes the variable's value.
pub exec_assign-aliases :
    (m : Machine) (b o i : ℕ) (l d : Datum) (s : Symbol)
    → m.ptr ≡ addr b (suc (suc o))
    → m.frames ≡ []
    → m.cell b (suc o) ≡ Cell.holds l
    → l.type ≡ DatumType.symbol
    → l.sym ≡ some i
    → m.symbols i ≡ some s
    → s.type ≡ SymbolType.variable
    → m.cell b o ≡ Cell.holds d
    → d.type ≡ DatumType.number
    → (m' : Machine) × (exec_assign m ≡ done tt m')
      × (m'.symbols i ≡ some (record s { value = EntryValue.datum (addr b o) }))
      × ((w : ℕ)
          → (m'' : Machine) × (push_number w m' ≡ done tt m'')
            × (m''.symbols i ≡ some (record s { value = EntryValue.datum (addr b o) }))
            × (m''.cell b o ≡ Cell.holds (number_datum w)))
unfolding exec_assign pop_datum before resolve_symbol resolve_symbol_by resolve_value
    resolve_value_by primary_atom_to_datum primary_by assign_by assign_symbol push_number opened
exec_assign-aliases m b o i l d s p f hl tl sl hs ts hd td =
    let m' : Machine = record m {
      ptr = addr b o;
      symbols = update m.symbols i (some (record s { value = EntryValue.datum (addr b o) }));
    } in
    (
      m',
      ground arith,
      ground arith,
      λ w. (
        record m' {
          ptr = addr b (o + 1);
          cell = update₂ m'.cell b o (Cell.holds (number_datum w));
        },
        ground arith,
        ground arith,
        ground arith,
      ),
    )

-- RETURN only stores the value: with another instruction behind it the loop goes on there. So a
-- run from a RETURN is a run from the instruction that follows, in the machine with the result.
pub loop-return :
    (f script pc : ℕ) (r : Addr) (sc : Script) (m m' : Machine)
    → m.scripts script ≡ some sc
    → get_elem? sc.code pc ≡ some (op_code OpType.return)
    → get_elem? sc.code (suc pc) ≡ some 1
    → return_value r m ≡ done tt m'
    → loop (suc f) script pc r m ≡ loop f script (suc (suc pc)) r m'
unfolding loop exec exec_return operand to_op opened
loop-return f script pc r sc m m' s h h' v = ground (arith, get_elem?-lt sc.code pc h)
