-- ===== src/Vm/Interp.antt =====
-- codeInterpret.
use cpp_custom.Prelude.{
  List, Option, [], codes, get_elem?, length, ltb, none, some, suc, zero, ℕ, ◌%◌, ◌++◌, ◌+◌, ◌==◌,
  ◌^◌, ◌∷◌,
}
use cpp_custom.Vm.Resolve.{as_property, resolve_symbol, resolve_value, slot_addr}
use cpp_custom.Vm.Stack.{before, pop_datum, push_atom, push_datum, push_number, push_symbol}
use cpp_custom.Vm.State.{
  M, branch, copy, deref, done, get_atom, get_frames, get_function, get_prop, get_ptr, get_script,
  get_static_link, get_symbol, get_unset_value, load, new_datum, new_scope, new_symbol, out_of_fuel,
  pure, put_symbol, set_frames, set_ptr, set_static_link, shift, thrown, ◌>>=◌, ◌>>◌,
}
use cpp_custom.Vm.Types.{
  Addr, Datum, DatumType, EntryValue, Frame, OpType, Script, Symbol, SymbolType, is_function,
  is_undef, to_op,
}

-- The byte at an index of the code, which is read only below the length.
unfoldable pub operand : Script → ℕ → M ℕ
operand sc pc = deref (get_elem? sc.code pc)

-- Cases NAME and NUMBER.
unfoldable pub exec_atom : Script → ℕ → M (Unit {0})
exec_atom sc pc = do i ← operand sc pc; atom ← deref (get_elem? sc.atoms i); push_atom atom

-- A new variable in the current frame, whose value stays where it was on the stack ...
unfoldable pub declare_local : Addr → ℕ → Frame → List Frame → M (Unit {0})
declare_local rval sym f fs = do
  push_datum rval
  s ← get_symbol sym
  put_symbol sym (record s { slot = some (f.nvars % 2 ^ 8) })
  set_frames (record f { nvars = (f.nvars + 1) % 2 ^ 32 } ∷ fs)

-- ... or at the top level, whose value is a copy.
unfoldable pub declare_value : Addr → ℕ → List Frame → M (Unit {0})
declare_value rval sym (f ∷ fs) = declare_local rval sym f fs
declare_value rval sym [] = do
  d ← load rval
  a ← new_datum d
  s ← get_symbol sym
  put_symbol sym (record s { value = EntryValue.datum a })

unfoldable pub place_value : Addr → ℕ → M (Unit {0})
place_value rval sym = do frames ← get_frames; declare_value rval sym frames

unfoldable pub declare : Addr → Addr → M (Unit {0})
declare lval rval = do
  link ← get_static_link
  unset ← get_unset_value
  l ← load lval
  key ← deref l.atom
  sym ← new_symbol (record {
    type = SymbolType.variable;
    slot = none;
    next = none;
    scope = some link;
    key = key;
    value = unset;
  })
  place_value rval sym
  push_symbol sym link

-- The branches for a symbol that was found: the second argument is `stack->frame`.
unfoldable pub assign_symbol : SymbolType → List Frame → Addr → ℕ → Symbol → M (Unit {0})
assign_symbol SymbolType.property frames rval i sym = do
  p ← as_property sym.value
  prop ← get_prop p
  copy prop.datum rval
assign_symbol _ [] rval i sym = put_symbol i (record sym { value = EntryValue.datum rval })
assign_symbol type (f ∷ fs) rval i sym = do
  k ← deref sym.slot
  to ← slot_addr type f k
  copy to rval

unfoldable pub assign_by : DatumType → Addr → Addr → M (Unit {0})
assign_by DatumType.atom lval rval = declare lval rval
assign_by _ lval rval = do
  l ← load lval
  i ← deref l.sym
  sym ← get_symbol i
  frames ← get_frames
  assign_symbol sym.type frames rval i sym

unfoldable pub exec_assign : M (Unit {0})
exec_assign = do
  lval ← pop_datum
  resolve_symbol lval
  rval ← pop_datum
  resolve_value rval
  l ← load lval
  assign_by l.type lval rval

unfoldable pub exec_add : M (Unit {0})
exec_add = do
  lval ← pop_datum
  resolve_value lval
  rval ← pop_datum
  resolve_value rval
  l ← load lval
  r ← load rval
  a ← deref l.nval
  b ← deref r.nval
  push_number ((a + b) % 2 ^ 64)

unfoldable pub return_value : Addr → M (Unit {0})
return_value result = do rval ← pop_datum; resolve_value rval; copy result rval

unfoldable pub exec_return : ℕ → Addr → M (Unit {0})
exec_return has_val result = branch (has_val == 1) (return_value result) (pure tt)

-- The loop over the parameters: their symbols get the new scope and their slots.
unfoldable pub bind_args : ℕ → ℕ → Option ℕ → Addr → ℕ → M (Unit {0})
bind_args left slot none argv scope m = done tt m
bind_args zero slot (some i) argv scope m = done tt m
bind_args (suc left) slot (some i) argv scope m =
    (do
      resolve_value (shift argv slot)
      s ← get_symbol i
      put_symbol i (record s { scope = some scope; slot = some (slot % 2 ^ 8) })
      bind_args left (suc slot) s.next argv scope)
      m

-- The new frame, pushed on the list of frames.
unfoldable pub enter_frame : ℕ → ℕ → M Frame
enter_frame argc fun = do
  fn ← get_function fun
  p ← get_ptr
  argv ← before p argc
  frames ← get_frames
  body ← get_script fn.script
  scope ← new_scope (record { list = body.args; parent = some fn.slink })
  let frame : Frame = record {
    argc = argc;
    argv = argv;
    nvars = 0;
    vars = p;
    fun = fun;
    scope = scope;
  }
  set_frames (frame ∷ frames)
  bind_args argc 0 body.args argv scope
  pure frame

unfoldable pub push_result : Addr → M (Unit {0})
push_result result = do d ← load result; branch (is_undef d.type) (pure tt) (push_datum result)

abbrev pub zero_datum : Datum
zero_datum = record { type = DatumType.undef; nval = some 0; atom = none; sym = none; fun = none }

-- The call is of `interpret`, which codeInterpret is. The result is `frame->argv` and the place
-- of the callee's result.
unfoldable pub call_body : (ℕ → ℕ → Addr → M (Unit {0})) → ℕ → ℕ → M (Addr × Addr)
call_body interpret argc fun = do
  fn ← get_function fun
  frame ← enter_frame argc fun
  result ← new_datum zero_datum
  interpret fn.script frame.scope result
  pure (frame.argv, result)

unfoldable pub leave_call : List Frame → Addr × Addr → M (Unit {0})
leave_call down (argv, result) = do set_frames down; set_ptr argv; push_result result

unfoldable pub call_function : (ℕ → ℕ → Addr → M (Unit {0})) → ℕ → ℕ → M (Unit {0})
call_function interpret argc fun = do
  down ← get_frames
  r ← call_body interpret argc fun
  leave_call down r

-- The string that is thrown when the datum is not a function.
unfoldable pub not_defined : Datum → M (Unit {0})
not_defined d = do
  i ← deref d.atom
  atom ← get_atom i
  λ m. thrown (atom.sval ++ codes " not defined")

unfoldable pub call_datum : (ℕ → ℕ → Addr → M (Unit {0})) → ℕ → Datum → M (Unit {0})
call_datum interpret argc d =
    branch (is_function d.type) (do fun ← deref d.fun; call_function interpret argc fun)
      (not_defined d)

unfoldable pub exec_call : (ℕ → ℕ → Addr → M (Unit {0})) → ℕ → M (Unit {0})
exec_call interpret argc = do
  p ← get_ptr
  callee ← before p (suc argc)
  resolve_value callee
  d ← load callee
  call_datum interpret argc d

-- One turn of the loop; the result is the next index.
unfoldable pub exec : (ℕ → ℕ → Addr → M (Unit {0})) → OpType → Script → ℕ → Addr → M ℕ
exec interpret OpType.name sc pc result = do exec_atom sc pc; pure (suc pc)
exec interpret OpType.number sc pc result = do exec_atom sc pc; pure (suc pc)
exec interpret OpType.assign sc pc result = do exec_assign; pure pc
exec interpret OpType.add sc pc result = do exec_add; pure pc
exec interpret OpType.return sc pc result = do
  v ← operand sc pc
  exec_return v result
  pure (suc pc)
exec interpret OpType.call sc pc result = do
  argc ← operand sc pc
  exec_call interpret argc
  pure (suc pc)

-- codeInterpret round its loop: the static link is saved and restored.
unfoldable pub with_link : ℕ → M (Unit {0}) → M (Unit {0})
with_link slink body = do old ← get_static_link; set_static_link slink; body; set_static_link old

-- The `while` loop from an index, on fuel; an unknown opcode leaves `to_op_str` with no value.
unfoldable pub loop : ℕ → ℕ → ℕ → Addr → M (Unit {0})
loop zero script pc result m = out_of_fuel
loop (suc f) script pc result m =
    (do
      sc ← get_script script
      branch (ltb pc (length sc.code))
          (do
            b ← operand sc pc
            op ← deref (to_op b)
            pc' ← exec (λ s slink r. with_link slink (loop f s 0 r)) op sc (suc pc) result
            loop f script pc' result)
          (pure tt))
      m

unfoldable pub code_interpret : ℕ → ℕ → ℕ → Addr → M (Unit {0})
code_interpret fuel script slink result = with_link slink (loop fuel script 0 result)
