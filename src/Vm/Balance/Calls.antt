-- ===== src/Vm/Balance/Calls.antt =====
-- A call leaves the frames as they were, and so does every run of codeInterpret that ends.
use cpp_custom.Prelude.{List, ap, arith, length, ltb, refl, suc, sym, zero, ℕ, ◌∙◌, ◌≡◌, ◌≤◌}
use cpp_custom.Vm.Balance.Instructions.{
  Safe-bind_args, Safe-exec_add, Safe-exec_assign, Safe-exec_atom, Safe-exec_return,
  Safe-not_defined, Safe-operand, Safe-push_result,
}
use cpp_custom.Vm.Balance.Keeps.{
  Ensures, Ensures-and_then, Ensures-mono, Keeps, Keeps-trans, Safe, Safe-bind, Safe-branch,
  Safe-deref, Safe-get_script, Safe-pure, frozen,
}
use cpp_custom.Vm.Balance.Values.{calls}
use cpp_custom.Vm.Interp.{
  call_body, call_datum, call_function, code_interpret, enter_frame, exec, exec_call, leave_call,
  loop, push_result, with_link,
}
use cpp_custom.Vm.State.{
  M, Machine, and_then, get_frames, get_static_link, set_frames, set_ptr, set_static_link, ◌>>=◌,
  ◌>>◌,
}
use cpp_custom.Vm.Types.{Addr, Datum, Frame, OpType, Script, is_function, to_op}

-- What holds of the machine in a call made at `m`, whatever its frames are.
record Inside (m m' : Machine) : Type 0 where
  link : m'.static_link ≡ m.static_link
  scripts : m'.scripts ≡ m.scripts
  atoms : m'.atoms ≡ m.atoms
  functions : m'.functions ≡ m.functions
  props : m'.props ≡ m.props
  unset : m'.unset_value ≡ m.unset_value
  next : m.next ≤ m'.next

record Mild {A : Type 0} (x : M A) : Type 0 where
  inside : (m : Machine) → Ensures (λ _ m'. Inside m m') (x m)

Inside-trans : {l m n : Machine} → Inside l m → Inside m n → Inside l n
Inside-trans h k = record {
  link = k.link ∙ h.link;
  scripts = k.scripts ∙ h.scripts;
  atoms = k.atoms ∙ h.atoms;
  functions = k.functions ∙ h.functions;
  props = k.props ∙ h.props;
  unset = k.unset ∙ h.unset;
  next = omega arith;
}

Inside-of-Keeps : {m n : Machine} → Keeps m n → Inside m n
Inside-of-Keeps k = record {
  link = k.link;
  scripts = k.scripts;
  atoms = k.atoms;
  functions = k.functions;
  props = k.props;
  unset = k.unset;
  next = k.next;
}

Mild-of-Safe : {A : Type 0} {x : M A} → Safe x → Mild x
Mild-of-Safe {x = x} h = record {
  inside = λ m. Ensures-mono (x m) (λ a n k. Inside-of-Keeps k) (h.keeps m);
}

Mild-bind :
    {A B : Type 0} {x : M A} {f : A → M B} → Mild x → ((a : A) → Mild (f a)) → Mild (x >>= f)
unfolding ◌>>=◌
Mild-bind {x} {f} h k = record {
  inside = λ m.
      Ensures-and_then (λ _ n. Inside m n) (x m) f (h.inside m)
        λ a m' p. Ensures-mono (f a m') (λ b n q. Inside-trans p q) ((k a).inside m');
}

Mild-set_frames : (fs : List Frame) → Mild (set_frames fs)
unfolding set_frames
Mild-set_frames fs = record { inside = λ m. ground arith }

Mild-enter_frame : (argc fun : ℕ) → Mild (enter_frame argc fun)
unfolding enter_frame
Mild-enter_frame argc fun =
    search (Mild-bind, Mild-of-Safe, Mild-set_frames, calls, Safe-bind_args) depth 20

-- The callee, up to the point where the frames are put back.
Mild-call_body :
    (interpret : ℕ → ℕ → Addr → M (Unit {0})) (argc fun : ℕ)
    → ((s l : ℕ) (r : Addr) → Safe (interpret s l r))
    → Mild (call_body interpret argc fun)
unfolding call_body
Mild-call_body interpret argc fun h =
    search (Mild-bind, Mild-of-Safe, Mild-enter_frame, calls, h) depth 20

Keeps-back :
    (down : List Frame) (m m' : Machine)
    → m.frames ≡ down
    → Inside m m'
    → Keeps m (record m' { frames = down })
Keeps-back down m m' e i = record {
  link = i.link;
  frames = ap frozen (sym e);
  scripts = i.scripts;
  atoms = i.atoms;
  functions = i.functions;
  props = i.props;
  unset = i.unset;
  next = i.next;
}

Safe-leave_call :
    (down : List Frame) (m m' : Machine) (argv result : Addr)
    → m.frames ≡ down
    → Inside m m'
    → Ensures (λ _ n. Keeps m n) (leave_call down (argv, result) m')
unfolding leave_call set_frames ◌>>=◌ and_then
Safe-leave_call down m m' argv result e i =
    let rest : Safe (set_ptr argv >> push_result result) = search (calls, Safe-push_result) in
    let back : Machine = record m' { frames = down } in
    Ensures-mono ((set_ptr argv >> push_result result) back)
      (λ _ n k. Keeps-trans (Keeps-back down m m' e i) k) (rest.keeps back)

Safe-call_function :
    (interpret : ℕ → ℕ → Addr → M (Unit {0})) (argc fun : ℕ)
    → ((s l : ℕ) (r : Addr) → Safe (interpret s l r))
    → Safe (call_function interpret argc fun)
unfolding call_function get_frames ◌>>=◌ and_then
Safe-call_function interpret argc fun h = record {
  keeps = λ m.
      Ensures-and_then (λ _ n. Keeps m n) (call_body interpret argc fun m) (leave_call m.frames)
        ((Mild-call_body interpret argc fun h).inside m)
        λ (argv, result) m' i. Safe-leave_call m.frames m m' argv result refl i;
}

module _ (interpret : ℕ → ℕ → Addr → M (Unit {0}))
    (h : (s l : ℕ) (r : Addr) → Safe (interpret s l r)) where
  Safe-call_datum : (argc : ℕ) (d : Datum) → Safe (call_datum interpret argc d)
  unfolding call_datum
  Safe-call_datum argc d =
      Safe-branch (is_function d.type)
        (Safe-bind (Safe-deref d.fun) λ fun. Safe-call_function interpret argc fun h)
        (Safe-not_defined d)

  Safe-exec_call : (argc : ℕ) → Safe (exec_call interpret argc)
  unfolding exec_call
  Safe-exec_call argc = search (calls, Safe-call_datum) depth 14

  Safe-exec : (op : OpType) (sc : Script) (pc : ℕ) (r : Addr) → Safe (exec interpret op sc pc r)
  unfolding exec
  Safe-exec OpType.name sc pc r = search (calls, Safe-exec_atom) depth 10
  Safe-exec OpType.number sc pc r = search (calls, Safe-exec_atom) depth 10
  Safe-exec OpType.assign sc pc r = search (calls, Safe-exec_assign) depth 10
  Safe-exec OpType.add sc pc r = search (calls, Safe-exec_add) depth 10
  Safe-exec OpType.return sc pc r = search (calls, Safe-operand, Safe-exec_return) depth 10
  Safe-exec OpType.call sc pc r = search (calls, Safe-operand, Safe-exec_call) depth 10

Safe-with_link : (slink : ℕ) {x : M (Unit {0})} → Safe x → Safe (with_link slink x)
unfolding with_link get_static_link set_static_link ◌>>=◌ and_then
Safe-with_link slink {x} h = record {
  keeps = λ m.
      let inner : Machine = record m { static_link = slink } in
      Ensures-and_then (λ _ n. Keeps m n) (x inner) _ (h.keeps inner)
        λ _ m' k. record {
          link = refl;
          frames = k.frames;
          scripts = k.scripts;
          atoms = k.atoms;
          functions = k.functions;
          props = k.props;
          unset = k.unset;
          next = k.next;
        };
}

Safe-loop : (f script pc : ℕ) (r : Addr) → Safe (loop f script pc r)
unfolding loop
Safe-loop zero script pc r = record { keeps = λ m. tt }
Safe-loop (suc f) script pc r = record {
  keeps =
      let inner : (s l : ℕ) (q : Addr) → Safe (with_link l (loop f s 0 q)) =
        λ s l q. Safe-with_link l (Safe-loop f s 0 q) in
      let rest : (pc' : ℕ) → Safe (loop f script pc' r) = λ pc'. Safe-loop f script pc' r in
      (Safe-bind (Safe-get_script script) λ sc.
        Safe-branch (ltb pc (length sc.code))
          (Safe-bind (Safe-operand sc pc) λ b.
            Safe-bind (Safe-deref (to_op b))
              λ op. Safe-bind (Safe-exec _ inner op sc (suc pc) r) rest)
          (Safe-pure tt)).keeps;
}

-- A run of `codeInterpret` that ends, with whatever calls it made, gives back the static link
-- and the frames that it found, but for the number of local variables of the innermost frame. It
-- changes no script, atom, function or property, and frees no object.
pub code_interpret-Keeps :
    (fuel script slink : ℕ) (result : Addr) (m : Machine)
    → Ensures (λ _ m'. Keeps m m') (code_interpret fuel script slink result m)
unfolding code_interpret
code_interpret-Keeps fuel script slink result m =
    (Safe-with_link slink (Safe-loop fuel script 0 result)).keeps m
