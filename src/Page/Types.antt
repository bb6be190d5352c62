-- ===== src/Page/Types.antt =====
-- The objects behind a page: the elements, which scripts share with the drawing code, the map of
-- ids, and what the code takes from elsewhere.
use cpp_custom.Prelude.{Bool, Bytes, List, Option, ℕ}
use cpp_custom.Browser.Types.{Platform, Page}

-- What a call does: `undefined` is behaviour that C++ leaves undefined (a null or unset pointer),
-- `diverges` a loop of the HTML parser that does not end, `thrown` an exception nobody catches.
pub data Outcome {ℓ} (A : Type ℓ) : Type ℓ where
  done : A → Outcome A
  undefined : Outcome A
  diverges : Outcome A
  thrown : Outcome A
  out_of_fuel : Outcome A

infixl 5 ◌>>=◌
abbrev pub ◌>>=◌ {ℓ κ} : {A : Type ℓ} {B : Type κ} → Outcome A → (A → Outcome B) → Outcome B
done a >>= f = f a
undefined >>= f = undefined
diverges >>= f = diverges
thrown >>= f = thrown
out_of_fuel >>= f = out_of_fuel

-- `Node *children`: not set, a text, or the numbers of DOMs.
pub data Children : Type 0 where
  unset : Children
  text : Bytes → Children
  nodes : List ℕ → Children

-- A DOM. Its number in the list of all of them stands for its address.
pub record Element : Type 0 where
  pub name : Bytes
  pub attributes : List (Bytes × Bytes)
  pub inner_html : Bytes
  pub children : Children

-- The DOMs made so far, `idDomMap`, `rootDOM` and how many root divs drawRoot has made; the last of
-- them is the root of `page`.
pub record Document (P : Platform) : Type 0 where
  pub elements : List Element
  pub ids : List (Bytes × ℕ)
  pub root : Option ℕ
  pub drawn : ℕ
  pub page : Page P

-- The colours of Skia.
pub record Palette : Type 0 where
  pub transparent : ℕ
  pub black : ℕ
  pub dkgray : ℕ
  pub gray : ℕ
  pub ltgray : ℕ
  pub white : ℕ
  pub red : ℕ
  pub green : ℕ
  pub blue : ℕ
  pub yellow : ℕ
  pub cyan : ℕ
  pub magenta : ℕ

-- QuickJS, the files and curl. A script may change the page in any way; `nothing` is JS_UNDEFINED,
-- `run_job` JS_ExecutePendingJob, and `chunks`
-- are what curl hands over for an address, if it starts. `ready` puts the document object into the
-- engine; what is behind its last line, where the code has no return, is undefined: a compiler may make
-- a program of it that goes on or one that does not.
pub record Engine (P : Platform) : Type 0 where
  pub eval : Bytes → Document P → Outcome (P.Js × Document P)
  pub run_job : Document P → Outcome (Document P)
  pub ready : P.World → Outcome P.World
  pub global : P.Js
  pub nothing : P.Js
  pub palette : Palette
  pub file : Bytes → Option Bytes
  pub chunks : Bytes → Option (List Bytes)
  pub fits : ℕ → Bool
