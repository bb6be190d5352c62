-- ===== src/Vm/Expr/Run.antt =====
-- The code of an expression pushes its value, whatever code and stack it stands in.
use cpp_custom.Prelude.{
  ap, arith, false, get_elem?, leb, refl, some, suc, ℕ, ◌%◌, ◌&&◌, ◌+◌, ◌==◌, ◌^◌, ◌∙◌, ◌≡◌, ◌≢◌,
}
use cpp_custom.Vm.Expr.Operands.{Holds, Resolved, of_atom, of_number, resolve_value-Holds}
use cpp_custom.Vm.Expr.Syntax.{CodeAt, Expr, IsLiteral, Room, compile, get_elem?-lt}
use cpp_custom.Vm.Interp.{exec, exec_add, exec_atom, loop, operand}
use cpp_custom.Vm.Stack.{atom_datum, before, number_datum, pop_datum, push_atom, push_number}
use cpp_custom.Vm.State.{Cell, Machine, done, opened, shift, update₂}
use cpp_custom.Vm.Types.{Addr, Datum, OpType, Script, addr, op_code, to_op}

-- The stack is one cell higher.
abbrev pub above : Machine → (ℕ → ℕ → Cell) → Machine
above m cells = record m { cell = cells; ptr = shift m.ptr 1 }

-- The new top cell holds `v`, the cells below it and those of other blocks are as before, and
-- allocated cells stay so.
pub record Pushed (m : Machine) (v : ℕ) (cells : ℕ → ℕ → Cell) : Type 0 where
  pub top : Cell
  pub top_at : cells m.ptr.block m.ptr.off ≡ top
  pub value : Holds m.atoms v top
  pub below : (b o : ℕ) → (b == m.ptr.block && leb m.ptr.off o) ≡ false → cells b o ≡ m.cell b o
  pub room : (b o : ℕ) → m.cell b o ≢ Cell.unallocated → cells b o ≢ Cell.unallocated

module _ (m : Machine) (b o v₁ v₂ : ℕ)
    (r₁ : Resolved (record m { ptr = addr b (suc o) }) (addr b (suc o)) v₂)
    (r₂ : Resolved (record m { cell = r₁.cells; ptr = addr b o }) (addr b o) v₁) where
  abbrev total : Datum
  total = number_datum ((v₁ + v₂) % 2 ^ 64)

  abbrev added : ℕ → ℕ → Cell
  added = update₂ r₂.cells b o (Cell.holds total)

  exec_add-runs :
      m.ptr ≡ addr b (suc (suc o))
      → exec_add m ≡ done tt (record m { cell = added; ptr = addr b (o + 1) })
  unfolding exec_add pop_datum before push_number opened
  exec_add-runs e =
      ground (arith, r₁.runs, r₂.runs, r₂.other b (suc o), r₁.here, r₂.here, r₁.value, r₂.value)

  added-room : (b' o' : ℕ) → m.cell b' o' ≢ Cell.unallocated → added b' o' ≢ Cell.unallocated
  added-room b' o' h = ground (arith, r₁.other b' o', r₂.other b' o', r₁.here, r₂.here)

  exec_add-Pushed : Pushed (record m { ptr = addr b o }) ((v₁ + v₂) % 2 ^ 64) added
  exec_add-Pushed = record {
    top = Cell.holds total;
    top_at = ground arith;
    value = of_number refl refl;
    below = λ b' o' h. ground (arith, r₁.other b' o', r₂.other b' o');
    room = added-room;
  }

exec_add-Holds :
    (m : Machine) (b o v₁ v₂ : ℕ) (c₁ c₂ : Cell)
    → m.ptr ≡ addr b (suc (suc o))
    → m.cell b o ≡ c₁
    → Holds m.atoms v₁ c₁
    → m.cell b (suc o) ≡ c₂
    → Holds m.atoms v₂ c₂
    → (cells : ℕ → ℕ → Cell) × (exec_add m
        ≡ done tt (record m { cell = cells; ptr = addr b (o + 1) }))
      × Pushed (record m { ptr = addr b o }) ((v₁ + v₂) % 2 ^ 64) cells
exec_add-Holds m b o v₁ v₂ c₁ c₂ e h₁ k₁ h₂ k₂ =
    let m₁ : Machine = record m { ptr = addr b (suc o) } in
    let r₁ : Resolved m₁ (addr b (suc o)) v₂ = resolve_value-Holds m₁ (addr b (suc o)) h₂ k₂ in
    let m₂ : Machine = record m { cell = r₁.cells; ptr = addr b o } in
    let h₃ : r₁.cells b o ≡ c₁ = r₁.other b o (ground arith) ∙ h₁ in
    let r₂ : Resolved m₂ (addr b o) v₁ = resolve_value-Holds m₂ (addr b o) h₃ k₁ in
    (_, exec_add-runs m b o v₁ v₂ r₁ r₂ e, exec_add-Pushed m b o v₁ v₂ r₁ r₂)

-- A run of `n` turns over `len` bytes of code pushes `v`.
pub record Runs (script pc : ℕ) (r : Addr) (n len : ℕ) (m : Machine) (v : ℕ) : Type 0 where
  pub cells : ℕ → ℕ → Cell
  pub runs : (f : ℕ) → loop (n + f) script pc r m ≡ loop f script (len + pc) r (above m cells)
  pub pushed : Pushed m v cells

module _ (script pc : ℕ) (r : Addr) (sc : Script) (m : Machine) where
  loop-add :
      (f : ℕ) {m' : Machine}
      → m.scripts script ≡ some sc
      → get_elem? sc.code pc ≡ some (op_code OpType.add)
      → exec_add m ≡ done tt m'
      → loop (suc f) script pc r m ≡ loop f script (suc pc) r m'
  unfolding loop operand to_op exec opened
  loop-add f e h x = ground (arith, get_elem?-lt sc.code pc h)

  loop-number :
      (f i a : ℕ)
      → m.scripts script ≡ some sc
      → get_elem? sc.code pc ≡ some (op_code OpType.number)
      → get_elem? sc.code (suc pc) ≡ some i
      → get_elem? sc.atoms i ≡ some a
      → m.cell m.ptr.block m.ptr.off ≢ Cell.unallocated
      → loop (suc f) script pc r m
        ≡ loop f script (suc (suc pc)) r (record m {
          cell = update₂ m.cell m.ptr.block m.ptr.off (Cell.holds (atom_datum a));
          ptr = shift m.ptr 1;
        })
  unfolding loop operand to_op exec exec_atom push_atom opened
  loop-number f i a e h h' g u = ground (arith, get_elem?-lt sc.code pc h)

  pub literal-Runs :
      (i v : ℕ)
      → IsLiteral m.atoms sc i v
      → m.scripts script ≡ some sc
      → CodeAt sc.code pc (compile (Expr.literal i))
      → Room m.cell m.ptr 1
      → Runs script pc r 1 2 m v
  unfolding compile
  literal-Runs i v (a, t, g, at, ty, nv) e c u =
      let free : m.cell m.ptr.block m.ptr.off ≢ Cell.unallocated = ground (arith, u 0) in
      let cells = update₂ m.cell m.ptr.block m.ptr.off (Cell.holds (atom_datum a)) in
      record {
        cells = cells;
        runs = λ f.
            ap (λ n. loop n script pc r m) (omega arith)
            ∙ loop-number f i a e c.0 c.1.0 g free
            ∙ ap (λ n. loop f script n r (above m cells)) (omega arith);
        pushed = record {
          top = Cell.holds (atom_datum a);
          top_at = ground arith;
          value = of_atom a t refl refl at ty nv;
          below = λ b o h. ground arith;
          room = λ b o h. ground arith;
        };
      }

module _ {script pc : ℕ} {r : Addr} {m : Machine} {n₁ n₂ l₁ l₂ v₁ v₂ : ℕ}
    (x : Runs script pc r n₁ l₁ m v₁) (y : Runs script (l₁ + pc) r n₂ l₂ (above m x.cells) v₂) where
  abbrev both : Machine
  both = above (above m x.cells) y.cells

  second_at : y.cells m.ptr.block (suc m.ptr.off) ≡ y.pushed.top
  second_at = ap (y.cells m.ptr.block) (omega arith) ∙ y.pushed.top_at

  Pushed-sum :
      (v : ℕ) {cells : ℕ → ℕ → Cell}
      → Pushed (record both { ptr = m.ptr }) v cells
      → Pushed m v cells
  Pushed-sum v p = record {
    top = p.top;
    top_at = p.top_at;
    value = p.value;
    below = λ b o h. p.below b o h ∙ y.pushed.below b o (ground arith) ∙ x.pushed.below b o h;
    room = λ b o h. p.room b o (y.pushed.room b o (x.pushed.room b o h));
  }

  pub sum-Runs :
      (sc : Script)
      → m.scripts script ≡ some sc
      → get_elem? sc.code (l₂ + (l₁ + pc)) ≡ some (op_code OpType.add)
      → Runs script pc r (n₁ + n₂ + 1) (l₁ + l₂ + 1) m ((v₁ + v₂) % 2 ^ 64)
  sum-Runs sc e c =
      let kept : y.cells m.ptr.block m.ptr.off ≡ x.pushed.top =
        y.pushed.below m.ptr.block m.ptr.off (ground arith) ∙ x.pushed.top_at in
      let (cells, ran, p) =
        exec_add-Holds both m.ptr.block m.ptr.off v₁ v₂ x.pushed.top y.pushed.top (ground arith)
          kept x.pushed.value second_at y.pushed.value in
      record {
        cells = cells;
        runs = λ f.
            ap (λ n. loop n script pc r m) (omega arith)
            ∙ x.runs (n₂ + suc f)
            ∙ y.runs (suc f)
            ∙ loop-add script (l₂ + (l₁ + pc)) r sc both f e c ran
            ∙ ap (λ n. loop f script n r (above m cells)) (omega arith);
        pushed = Pushed-sum ((v₁ + v₂) % 2 ^ 64) p;
      }
