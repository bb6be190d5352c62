-- ===== src/Vm/State.antt =====
-- The machine: `class Context`, the objects that its pointers reach, and the monad of the code.
use cpp_custom.Prelude.{
  Bool, Bytes, List, Option, false, if◌then◌else◌, none, some, true, ℕ, ◌&&◌, ◌+◌, ◌==◌,
}
use cpp_custom.Vm.Types.{
  Addr, Atom, Datum, EntryValue, Frame, Function, Property, Scope, Script, Symbol, addr,
}

-- One `Datum` of memory. A cell that was allocated and never written may not be read.
pub data Cell : Type 0 where
  unallocated : Cell
  indeterminate : Cell
  holds : Datum → Cell

-- `unset_value` is what the memory of a new `Symbol` has in `entry.value`, which its constructor
-- leaves alone. Objects and memory blocks are numbered together, `next` is the first free number.
pub record Machine : Type 0 where
  pub cell : ℕ → ℕ → Cell
  pub atoms : ℕ → Option Atom
  pub symbols : ℕ → Option Symbol
  pub scopes : ℕ → Option Scope
  pub props : ℕ → Option Property
  pub functions : ℕ → Option Function
  pub scripts : ℕ → Option Script
  pub next : ℕ
  pub ptr : Addr
  pub frames : List Frame
  pub static_link : ℕ
  pub unset_value : EntryValue

-- `undefined` is undefined behaviour of the C++ code, `thrown` the string that it throws.
pub data Outcome (A : Type 0) : Type 0 where
  done : A → Machine → Outcome A
  undefined : Outcome A
  thrown : Bytes → Outcome A
  out_of_fuel : Outcome A

abbrev pub M : Type 0 → Type 0
M A = Machine → Outcome A

unfoldable pub pure : {A : Type 0} → A → M A
pure a m = done a m

unfoldable pub and_then : {A B : Type 0} → Outcome A → (A → M B) → Outcome B
and_then (done a m) f = f a m
and_then undefined f = undefined
and_then (thrown e) f = thrown e
and_then out_of_fuel f = out_of_fuel

infixl 5 ◌>>=◌ ◌>>◌
unfoldable pub ◌>>=◌ : {A B : Type 0} → M A → (A → M B) → M B
◌>>=◌ x f m = and_then (x m) f

-- The result of the first part may be dropped.
abbrev pub ◌>>◌ : {A B : Type 0} → M A → M B → M B
x >> k = x >>= λ _. k

-- An `if` of the code.
unfoldable pub branch : {A : Type 0} → Bool → M A → M A → M A
branch true x y = x
branch false x y = y

-- The use of a pointer or a value that is null or indeterminate.
unfoldable pub deref : {A : Type 0} → Option A → M A
deref none m = undefined
deref (some a) m = done a m

abbrev pub update {ℓ} : {A : Type ℓ} → (ℕ → A) → ℕ → A → ℕ → A
update f p v q = if p == q then v else f q

abbrev pub update₂ : (ℕ → ℕ → Cell) → ℕ → ℕ → Cell → ℕ → ℕ → Cell
update₂ f b o v b' o' = if b == b' && o == o' then v else f b' o'

unfoldable pub read_cell : Cell → M Datum
read_cell Cell.unallocated m = undefined
read_cell Cell.indeterminate m = undefined
read_cell (Cell.holds d) m = done d m

unfoldable pub write_cell : Cell → Addr → Datum → M (Unit {0})
write_cell Cell.unallocated p d m = undefined
write_cell _ p d m = done tt (record m { cell = update₂ m.cell p.block p.off (Cell.holds d) })

unfoldable pub load : Addr → M Datum
load p m = read_cell (m.cell p.block p.off) m

unfoldable pub store : Addr → Datum → M (Unit {0})
store p d m = write_cell (m.cell p.block p.off) p d m

-- `memcpy(to, from, sizeof(Datum))`
unfoldable pub copy : Addr → Addr → M (Unit {0})
copy to from = do d ← load from; store to d

abbrev pub shift : Addr → ℕ → Addr
shift p k = addr p.block (p.off + k)

-- `new Datum()` with these contents.
unfoldable pub new_datum : Datum → M Addr
new_datum d m =
    done (addr m.next 0)
      (record m { cell = update₂ m.cell m.next 0 (Cell.holds d); next = m.next + 1 })

unfoldable pub get_atom : ℕ → M Atom
get_atom i m = deref (m.atoms i) m

unfoldable pub get_symbol : ℕ → M Symbol
get_symbol i m = deref (m.symbols i) m

unfoldable pub put_symbol : ℕ → Symbol → M (Unit {0})
put_symbol i s m = done tt (record m { symbols = update m.symbols i (some s) })

unfoldable pub get_scope : ℕ → M Scope
get_scope i m = deref (m.scopes i) m

unfoldable pub put_scope : ℕ → Scope → M (Unit {0})
put_scope i s m = done tt (record m { scopes = update m.scopes i (some s) })

unfoldable pub get_script : ℕ → M Script
get_script i m = deref (m.scripts i) m

unfoldable pub put_script : ℕ → Script → M (Unit {0})
put_script i s m = done tt (record m { scripts = update m.scripts i (some s) })

unfoldable pub get_prop : ℕ → M Property
get_prop i m = deref (m.props i) m

unfoldable pub get_function : ℕ → M Function
get_function i m = deref (m.functions i) m

-- The `new` of each class.
unfoldable pub new_atom : Atom → M ℕ
new_atom a m = done m.next (record m { atoms = update m.atoms m.next (some a); next = m.next + 1 })

unfoldable pub new_symbol : Symbol → M ℕ
new_symbol s m =
    done m.next (record m { symbols = update m.symbols m.next (some s); next = m.next + 1 })

unfoldable pub new_scope : Scope → M ℕ
new_scope s m =
    done m.next (record m { scopes = update m.scopes m.next (some s); next = m.next + 1 })

unfoldable pub new_prop : Property → M ℕ
new_prop p m = done m.next (record m { props = update m.props m.next (some p); next = m.next + 1 })

unfoldable pub new_function : Function → M ℕ
new_function f m =
    done m.next (record m { functions = update m.functions m.next (some f); next = m.next + 1 })

unfoldable pub new_script : Script → M ℕ
new_script s m =
    done m.next (record m { scripts = update m.scripts m.next (some s); next = m.next + 1 })

-- Fields of the context.
unfoldable pub get_ptr : M Addr
get_ptr m = done m.ptr m

unfoldable pub set_ptr : Addr → M (Unit {0})
set_ptr p m = done tt (record m { ptr = p })

unfoldable pub get_frames : M (List Frame)
get_frames m = done m.frames m

unfoldable pub set_frames : List Frame → M (Unit {0})
set_frames fs m = done tt (record m { frames = fs })

unfoldable pub get_static_link : M ℕ
get_static_link m = done m.static_link m

unfoldable pub set_static_link : ℕ → M (Unit {0})
set_static_link s m = done tt (record m { static_link = s })

unfoldable pub get_unset_value : M EntryValue
get_unset_value m = done m.unset_value m

-- Stands on an `unfolding` line for all the operations above.
unfoldable pub opened : Unit {0}
unfolding pure ◌>>=◌ and_then branch deref read_cell write_cell load store copy new_datum get_atom
    get_symbol put_symbol get_scope put_scope get_script put_script get_prop get_function new_atom
    new_symbol new_scope new_prop new_function new_script get_ptr set_ptr get_frames set_frames
    get_static_link set_static_link get_unset_value
opened = tt
