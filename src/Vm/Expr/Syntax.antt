-- ===== src/Vm/Expr/Syntax.antt =====
-- An expression over the literals of a script, its value and its code.
use Prim.Native.Nat.{max}
use native.Mathlib.Nat.{zero-add}
use cpp_custom.Prelude.{
  List, Option, [], arith, get_elem?, length, some, suc, zero, ℕ, ◌%◌, ◌++◌, ◌+◌, ◌<◌, ◌^◌, ◌∷◌,
  ◌≡◌, ◌≢◌,
}
use cpp_custom.Vm.State.{Cell}
use cpp_custom.Vm.Types.{Addr, Atom, AtomType, OpType, Script, op_code}

pub data Expr : Type 0 where
  literal : ℕ → Expr
  sum : Expr → Expr → Expr

-- The number of the literal at an index of the script's atoms.
abbrev pub IsLiteral : (ℕ → Option Atom) → Script → ℕ → ℕ → Type 0
IsLiteral atoms sc i v =
    (a : ℕ) × (t : Atom) × (get_elem? sc.atoms i ≡ some a)
    × (atoms a ≡ some t)
    × (t.type ≡ AtomType.number)
    × (t.nval ≡ v)

-- `e` stands for the number `v`.
pub data Denotes (atoms : ℕ → Option Atom) (sc : Script) : Expr → ℕ → Type 0 where
  of_literal : {i v : ℕ} → IsLiteral atoms sc i v → Denotes atoms sc (Expr.literal i) v
  of_sum :
      {e₁ e₂ : Expr} {v₁ v₂ : ℕ}
      → Denotes atoms sc e₁ v₁
      → Denotes atoms sc e₂ v₂
      → Denotes atoms sc (Expr.sum e₁ e₂) ((v₁ + v₂) % 2 ^ 64)

unfoldable pub compile : Expr → List ℕ
compile (Expr.literal i) = op_code OpType.number ∷ i ∷ []
compile (Expr.sum e₁ e₂) = compile e₁ ++ (compile e₂ ++ op_code OpType.add ∷ [])

-- The number of turns of the loop.
unfoldable pub turns : Expr → ℕ
turns (Expr.literal i) = 1
turns (Expr.sum e₁ e₂) = turns e₁ + turns e₂ + 1

-- The number of stack cells that are used.
unfoldable pub height : Expr → ℕ
height (Expr.literal i) = 1
height (Expr.sum e₁ e₂) = max (height e₁) (height e₂ + 1)

-- The bytes `xs` stand in `code` from index `pc` on.
abbrev pub CodeAt : List ℕ → ℕ → List ℕ → Type 0
CodeAt code pc [] = Unit {0}
CodeAt code pc (x ∷ xs) = (get_elem? code pc ≡ some x) × CodeAt code (suc pc) xs

pub CodeAt-append :
    (code : List ℕ) (pc : ℕ) (xs ys : List ℕ)
    → CodeAt code pc (xs ++ ys)
    → CodeAt code pc xs × CodeAt code (length xs + pc) ys
CodeAt-append code pc [] ys h = (tt, rw zero-add h)
CodeAt-append code pc (x ∷ xs) ys h =
    let (l, r) = CodeAt-append code (suc pc) xs ys h.1 in
    let e : length (x ∷ xs) + pc ≡ length xs + suc pc = omega arith in ((h.0, l), rw e r)

pub get_elem?-lt {ℓ} :
    {A : Type ℓ} (xs : List A) (i : ℕ) {a : A} → get_elem? xs i ≡ some a → i < length xs
get_elem?-lt [] i h = absurd (ground arith)
get_elem?-lt (x ∷ xs) zero h = omega arith
get_elem?-lt (x ∷ xs) (suc i) h = omega (arith, get_elem?-lt xs i h)

-- Every cell of the next `n` on the stack is allocated.
abbrev pub Room : (ℕ → ℕ → Cell) → Addr → ℕ → Type 0
Room cells p n = (k : ℕ) → k < n → cells p.block (p.off + k) ≢ Cell.unallocated
