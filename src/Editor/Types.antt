-- ===== src/Editor/Types.antt =====
-- The Editor that the layer stands on, the layer's fields, and the keys and modifiers.
use cpp_custom.Prelude.{Bool, Bytes, List, [], false, ℕ}
use cpp_custom.Prelude.Int.{pos, ℤ}

pub data Movement : Type 0 where
  nowhere left up right down home end word_left word_right : Movement

-- What the code takes from Skia: the text with its font and width, positions in it and floats.
-- `unset` is the position of the constructor without arguments, and `same` is `==`.
pub record Editor : Type 1 where
  pub Text : Type 0
  pub Position : Type 0
  pub unset : Position
  pub at : ℕ → ℕ → Position
  pub same : Position → Position → Bool
  pub insert : Position → Bytes → Text → Text
  pub remove : Position → Position → Text → Position × Text
  pub copy : Position → Position → Text → Bytes
  pub move : Movement → Position → Text → Position
  pub position_of : ℤ → ℤ → Text → Position
  pub top : Position → Text → ℤ
  pub bottom : Position → Text → ℤ
  pub height : Text → ℤ
  pub lines : Text → List Bytes
  pub set_width : ℤ → Text → Text
  pub Scalar : Type 0
  pub of_int : ℤ → Scalar
  pub to_int : Scalar → ℤ
  pub add : Scalar → Scalar → Scalar
  pub sub : Scalar → Scalar → Scalar
  pub mul : Scalar → Scalar → Scalar
  pub lt : Scalar → Scalar → Bool
  pub set_font : ℕ → Scalar → Text → Text
  pub spacing : Text → Scalar

-- The bits of `skui::ModifierKey`.
pub record Modifiers : Type 0 where
  pub shift : Bool
  pub control : Bool
  pub option : Bool
  pub command : Bool
  pub first_press : Bool

pub data InputState : Type 0 where
  down up move right left : InputState

pub data Key : Type 0 where
  page_down page_up left right up down home end delete back ok other : Key

-- EditorLayer. `parent` tells whether fParent is set and `invals` counts its calls of `inval`;
-- `typed` are the characters that the callback was given, `saved` the files written, in order.
pub record Layer (E : Editor) : Type 0 where
  pub path : Bytes
  pub parent : Bool
  pub clipboard : Bytes
  pub editor : E.Text
  pub text_pos : E.Position
  pub mark_pos : E.Position
  pub pos : ℤ
  pub width : ℤ
  pub height : ℤ
  pub margin : ℤ
  pub typeface_index : ℕ
  pub font_size : E.Scalar
  pub shift_down : Bool
  pub mouse_down : Bool
  pub invals : ℕ
  pub typed : Bytes
  pub saved : List (Bytes × Bytes)

-- The initial values of the fields.
abbrev pub new_layer : (E : Editor) → E.Text → Layer E
new_layer E text = record {
  path = [];
  parent = false;
  clipboard = [];
  editor = text;
  text_pos = E.at 0 0;
  mark_pos = E.unset;
  pos = pos 0;
  width = pos 0;
  height = pos 0;
  margin = pos 10;
  typeface_index = 0;
  font_size = E.of_int (pos 18);
  shift_down = false;
  mouse_down = false;
  invals = 0;
  typed = [];
  saved = [];
}
