-- ===== src/Vm/Balance/Instructions.antt =====
-- The instructions keep what `Keeps` says, and the loop does.
use cpp_custom.Prelude.{List, Option, [], arith, none, refl, some, suc, zero, ℕ, ◌∷◌, ◌≡◌}
use cpp_custom.Vm.Balance.Keeps.{
  Ensures, Keeps, Keeps-refl, Safe, Safe-bind, Safe-deref, Safe-get_atom, Safe-get_symbol,
  Safe-put_symbol, primitives,
}
use cpp_custom.Vm.Balance.Values.{Safe-resolve_value, calls}
use cpp_custom.Vm.Interp.{
  assign_by, assign_symbol, bind_args, declare, declare_local, declare_value, exec_add, exec_assign,
  exec_atom, exec_return, not_defined, operand, place_value, push_result, return_value,
}
use cpp_custom.Vm.Stack.{push_datum}
use cpp_custom.Vm.State.{
  Machine, and_then, deref, get_frames, get_symbol, put_symbol, set_frames, set_ptr, shift, ◌>>=◌,
}
use cpp_custom.Vm.Types.{Addr, Datum, DatumType, Frame, Script, Symbol, SymbolType}

pub Safe-operand : (sc : Script) (pc : ℕ) → Safe (operand sc pc)
unfolding operand
Safe-operand sc pc = search primitives

pub Safe-exec_atom : (sc : Script) (pc : ℕ) → Safe (exec_atom sc pc)
unfolding exec_atom
Safe-exec_atom sc pc = search (calls, Safe-operand) depth 8

declare_local-Keeps :
    (rval : Addr) (sym : ℕ) (f : Frame) (fs : List Frame) (m : Machine)
    → m.frames ≡ f ∷ fs
    → Ensures (λ _ m'. Keeps m m') (declare_local rval sym f fs m)
unfolding declare_local push_datum set_ptr get_symbol deref put_symbol set_frames ◌>>=◌ and_then
declare_local-Keeps rval sym f fs m e = ground arith

Safe-top_level : (rval : Addr) (sym : ℕ) → Safe (declare_value rval sym [])
unfolding declare_value
Safe-top_level rval sym = search calls depth 10

declare_value-Keeps :
    (rval : Addr) (sym : ℕ) (frames : List Frame) (m : Machine)
    → m.frames ≡ frames
    → Ensures (λ _ m'. Keeps m m') (declare_value rval sym frames m)
unfolding declare_value
declare_value-Keeps rval sym [] m e = (Safe-top_level rval sym).keeps m
declare_value-Keeps rval sym (f ∷ fs) m e = declare_local-Keeps rval sym f fs m e

Safe-place_value : (rval : Addr) (sym : ℕ) → Safe (place_value rval sym)
unfolding place_value get_frames ◌>>=◌ and_then
Safe-place_value rval sym = record { keeps = λ m. declare_value-Keeps rval sym m.frames m refl }

Safe-declare : (lval rval : Addr) → Safe (declare lval rval)
unfolding declare
Safe-declare lval rval = search (calls, Safe-place_value) depth 16

Safe-assign_symbol :
    (t : SymbolType) (fs : List Frame) (rval : Addr) (i : ℕ) (s : Symbol)
    → Safe (assign_symbol t fs rval i s)
unfolding assign_symbol
Safe-assign_symbol SymbolType.property fs rval i s = search calls depth 10
Safe-assign_symbol SymbolType.argument [] rval i s = search calls depth 10
Safe-assign_symbol SymbolType.argument (f ∷ fs) rval i s = search calls depth 10
Safe-assign_symbol SymbolType.variable [] rval i s = search calls depth 10
Safe-assign_symbol SymbolType.variable (f ∷ fs) rval i s = search calls depth 10

Safe-assign_by : (t : DatumType) (lval rval : Addr) → Safe (assign_by t lval rval)
unfolding assign_by
Safe-assign_by DatumType.atom lval rval = Safe-declare lval rval
Safe-assign_by _ lval rval = search (calls, Safe-assign_symbol) depth 10

pub Safe-exec_assign : Safe exec_assign
unfolding exec_assign
Safe-exec_assign = search (calls, Safe-assign_by) depth 14

pub Safe-exec_add : Safe exec_add
unfolding exec_add
Safe-exec_add = search calls depth 20

Safe-return_value : (result : Addr) → Safe (return_value result)
unfolding return_value
Safe-return_value result = search calls depth 10

pub Safe-exec_return : (v : ℕ) (result : Addr) → Safe (exec_return v result)
unfolding exec_return
Safe-exec_return v result = search (calls, Safe-return_value) depth 10

pub Safe-bind_args :
    (left slot : ℕ) (sym : Option ℕ) (argv : Addr) (scope : ℕ)
    → Safe (bind_args left slot sym argv scope)
unfolding bind_args
Safe-bind_args zero slot none argv scope = record { keeps = Keeps-refl }
Safe-bind_args (suc left) slot none argv scope = record { keeps = Keeps-refl }
Safe-bind_args zero slot (some i) argv scope = record { keeps = Keeps-refl }
Safe-bind_args (suc left) slot (some i) argv scope = record {
  keeps =
      let rest : (s : Symbol) → Safe (bind_args left (suc slot) s.next argv scope) =
        λ s. Safe-bind_args left (suc slot) s.next argv scope in
      (Safe-bind (Safe-resolve_value (shift argv slot))
        λ _. Safe-bind (Safe-get_symbol i) λ s. Safe-bind (Safe-put_symbol i _) λ _. rest s).keeps;
}

pub Safe-push_result : (result : Addr) → Safe (push_result result)
unfolding push_result
Safe-push_result result = search calls depth 10

pub Safe-not_defined : (d : Datum) → Safe (not_defined d)
unfolding not_defined
Safe-not_defined d =
    Safe-bind (Safe-deref d.atom) λ i. Safe-bind (Safe-get_atom i) λ a. record { keeps = λ m. tt }
