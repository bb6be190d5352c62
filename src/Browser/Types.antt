-- ===== src/Browser/Types.antt =====
-- DivComponent, Click and the fields of the browser that the mouse handlers use.
use cpp_custom.Prelude.{Bool, Bytes, Option, ℕ}
use cpp_custom.Prelude.Int.{ℤ}

-- What the code takes from elsewhere: `SkScalar`, a float, with the conversion from `int`, the
-- sum and the order of the machine, and the values of the script engine.
pub record Platform : Type 1 where
  pub Scalar : Type 0
  pub of_int : ℤ → Scalar
  pub add : Scalar → Scalar → Scalar
  pub less : Scalar → Scalar → Bool
  pub Js : Type 0
  pub is_undefined : Js → Bool
  pub World : Type 0

pub record Point (P : Platform) : Type 0 where
  pub x : P.Scalar
  pub y : P.Scalar

-- The fields of a DivComponent but its children.
pub record Box (P : Platform) : Type 0 where
  pub x : P.Scalar
  pub y : P.Scalar
  pub width : P.Scalar
  pub height : P.Scalar
  pub padding_left : P.Scalar
  pub inner_text : Bytes
  pub font_size : ℤ
  pub color : ℕ
  pub background : ℕ
  pub click_this : P.Js
  pub on_click : P.Js

mutual
  pub data Div (P : Platform) : Type 0 where
    div : (box : Box P) (children : Divs P) → Div P

  pub data Divs (P : Platform) : Type 0 where
    nil : Divs P
    cons : Div P → Divs P → Divs P

pub data InputState : Type 0 where
  down up move right left : InputState

-- `this` and `func` are not set by the constructor without arguments.
pub record Click (P : Platform) : Type 0 where
  pub orig : Point P
  pub prev : Point P
  pub curr : Point P
  pub state : InputState
  pub modifier_keys : ℕ
  pub this : Option P.Js
  pub func : Option P.Js
  pub has_func : Bool

-- `rootDrawObj`, the number of calls of `inval`, and the state of the script engine.
pub record Page (P : Platform) : Type 0 where
  pub root : Option (Div P)
  pub invals : ℕ
  pub world : P.World

pub record Browser (P : Platform) : Type 0 where
  pub page : Page P
  pub click : Option (Click P)
