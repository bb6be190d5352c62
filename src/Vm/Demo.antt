-- ===== src/Vm/Demo.antt =====
-- The function that generateCode defines, called with any number.
use cpp_custom.Prelude.{Option, arith, none, refl, some, ℕ, ◌%◌, ◌+◌, ◌^◌, ◌≡◌}
use cpp_custom.Vm.Codegen.{
  as_datum, dump_scope, dump_symbols, emit, emit1, emit2, generate_add_method, generate_code,
  generate_name, generate_number, initial, main, push_back_atom,
}
use cpp_custom.Vm.Interp.{
  assign_by, assign_symbol, bind_args, call_body, call_datum, call_function, code_interpret,
  declare, declare_local, declare_value, enter_frame, exec, exec_add, exec_assign, exec_atom,
  exec_call, exec_return, leave_call, loop, not_defined, operand, place_value, push_result,
  return_value, with_link,
}
use cpp_custom.Vm.Resolve.{
  as_property, entry_value, find_frame, find_in_list, find_in_scopes, find_symbol, found_symbol,
  frame_value, literal_value, or_else, primary_atom_to_datum, primary_by, resolve_name,
  resolve_symbol, resolve_symbol_by, resolve_value, resolve_value_by, slot_addr, symbol_value,
}
use cpp_custom.Vm.Stack.{before, pop_datum, push_atom, push_datum, push_number, push_symbol}
use cpp_custom.Vm.State.{
  M, Outcome, deref, done, get_ptr, get_static_link, load, new_function, opened, out_of_fuel,
  set_ptr, shift, store, thrown, undefined, ◌>>=◌, ◌>>◌,
}
use cpp_custom.Vm.Types.{DatumType, EntryValue, to_op}

-- What every run below computes with.
all_open : Unit {0}
unfolding opened before pop_datum push_datum push_atom push_number push_symbol find_in_list or_else
    find_in_scopes find_symbol found_symbol resolve_name resolve_symbol_by resolve_symbol
    literal_value primary_by primary_atom_to_datum find_frame as_property slot_addr frame_value
    entry_value symbol_value resolve_value_by resolve_value operand exec_atom declare_local
    declare_value place_value declare assign_symbol assign_by exec_assign exec_add return_value
    exec_return bind_args enter_frame push_result call_body leave_call call_function not_defined
    call_datum exec_call exec with_link loop code_interpret to_op emit emit1 emit2 generate_number
    generate_name push_back_atom generate_add_method generate_code as_datum dump_symbols dump_scope
    main
all_open = tt

-- The call of the generated function at the top level, with 20 turns of the loop at most. The
-- answer is the number of the datum below the stack pointer.
pub call_add : ℕ → M ℕ
call_add n = do
  method ← generate_add_method
  slink ← get_static_link
  fun ← new_function (record { name = 0; script = method; slink = slink })
  p ← get_ptr
  store p
      (record { type = DatumType.function; nval = none; atom = none; sym = none; fun = some fun })
  set_ptr (shift p 1)
  push_number n
  exec_call (code_interpret 20) 1
  top ← get_ptr
  result ← before top 1
  d ← load result
  deref d.nval

-- The number that a run answers with.
abbrev pub answer : Outcome ℕ → Option ℕ
answer (done a _) = some a
answer undefined = none
answer (thrown _) = none
answer out_of_fuel = none

-- In a machine whose fresh symbols hold a null entry, calling the function of generateAddMethod
-- with the number `n` runs to its end, and below the stack pointer is then 12 + n + 3 modulo 2^64.
pub call_add-value :
    (n : ℕ) → answer (call_add n (initial EntryValue.null)) ≡ some ((n + 15) % 2 ^ 64)
unfolding call_add all_open
call_add-value n = ground arith

-- The program itself runs into undefined behaviour: the name that is pushed after the call goes
-- behind the result of the call.
main_undefined : main 30 EntryValue.null ≡ undefined
unfolding all_open
main_undefined = refl
