-- ===== src/Vm/Expr/Operands.antt =====
-- A value on the stack, and what resolveValue makes of it.
use cpp_custom.Prelude.{Bool, Option, arith, false, refl, some, true, ℕ, ◌&&◌, ◌==◌, ◌≡◌}
use cpp_custom.Vm.Resolve.{
  literal_value, primary_atom_to_datum, primary_by, resolve_name, resolve_symbol, resolve_symbol_by,
  resolve_value, resolve_value_by,
}
use cpp_custom.Vm.State.{Cell, Machine, done, opened, update₂}
use cpp_custom.Vm.Types.{Addr, Atom, AtomType, Datum, DatumType}

-- A cell that stands for `v`: a literal that was pushed, or a number.
pub data Holds (atoms : ℕ → Option Atom) (v : ℕ) : Cell → Type 0 where
  of_atom :
      {d : Datum} (a : ℕ) (t : Atom)
      → d.type ≡ DatumType.atom
      → d.atom ≡ some a
      → atoms a ≡ some t
      → t.type ≡ AtomType.number
      → t.nval ≡ v
      → Holds atoms v (Cell.holds d)
  of_number :
      {d : Datum} → d.type ≡ DatumType.number → d.nval ≡ some v → Holds atoms v (Cell.holds d)

-- The machine with other cells.
abbrev pub with_cells : Machine → (ℕ → ℕ → Cell) → Machine
with_cells m c = record m { cell = c }

-- The outcome of resolving the datum at `p`: it holds the number, and nothing else changes.
pub record Resolved (m : Machine) (p : Addr) (v : ℕ) : Type 0 where
  pub cells : ℕ → ℕ → Cell
  pub answer : Bool
  pub datum : Datum
  pub runs : resolve_value p m ≡ done answer (with_cells m cells)
  pub here : cells p.block p.off ≡ Cell.holds datum
  pub value : datum.nval ≡ some v
  pub other : (b o : ℕ) → (p.block == b && p.off == o) ≡ false → cells b o ≡ m.cell b o

resolve_atom :
    (m : Machine) (p : Addr) (v : ℕ) (d : Datum) (a : ℕ) (t : Atom)
    → m.cell p.block p.off ≡ Cell.holds d
    → d.type ≡ DatumType.atom
    → d.atom ≡ some a
    → m.atoms a ≡ some t
    → t.type ≡ AtomType.number
    → t.nval ≡ v
    → Resolved m p v
unfolding resolve_value resolve_symbol resolve_symbol_by resolve_name resolve_value_by
    primary_atom_to_datum primary_by literal_value opened
resolve_atom m p v d a t c e f g h k = record {
  cells =
      update₂ m.cell p.block p.off
        (Cell.holds (record d { type = DatumType.number; nval = some t.nval }));
  answer = true;
  datum = record d { type = DatumType.number; nval = some t.nval };
  runs = ground arith;
  here = ground arith;
  value = ground arith;
  other = ground arith;
}

resolve_number :
    (m : Machine) (p : Addr) (v : ℕ) (d : Datum)
    → m.cell p.block p.off ≡ Cell.holds d
    → d.type ≡ DatumType.number
    → d.nval ≡ some v
    → Resolved m p v
unfolding resolve_value resolve_symbol resolve_symbol_by resolve_value_by primary_atom_to_datum
    primary_by opened
resolve_number m p v d c e f = record {
  cells = m.cell;
  answer = false;
  datum = d;
  runs = ground arith;
  here = c;
  value = f;
  other = λ b o _. refl;
}

pub resolve_value-Holds :
    (m : Machine) (p : Addr) {v : ℕ} {c : Cell}
    → m.cell p.block p.off ≡ c
    → Holds m.atoms v c
    → Resolved m p v
resolve_value-Holds m p {v} e (of_atom {d} a t g h i j k) = resolve_atom m p v d a t e g h i j k
resolve_value-Holds m p {v} e (of_number {d} g h) = resolve_number m p v d e g h
