-- ===== src/Browser/Paint.antt =====
-- skia/jsGUI/SimpleBrowser.cpp: onPaint.
use cpp_custom.Prelude.{
  Bool, Bytes, List, Option, [], ◌∷◌, ◌++◌, true, false, none, some, ℕ, zero, suc, ◌==◌,
  if◌then◌else◌,
}
use cpp_custom.Prelude.Int.{quot}
use cpp_custom.Browser.Types.{Platform, Box, Div, Divs, div, nil, cons}
use cpp_custom.Browser.Mouse.{canvas_top, push_back, count_all, start_divs}

-- What is drawn on the canvas: white all over, a rectangle, or a text in a size.
pub data Draw (P : Platform) : Type 0 where
  clear : Draw P
  rect : (color : ℕ) (x y width height : P.Scalar) → Draw P
  text : (string : Bytes) (size : P.Scalar) (color : ℕ) (x y : P.Scalar) → Draw P

abbrev pub is_empty : Bytes → Bool
is_empty [] = true
is_empty (c ∷ cs) = false

-- `half` is the division of a float by 2.
module _ (P : Platform) (half : P.Scalar → P.Scalar) where
  unfoldable pub draw_background : Box P → List (Draw P)
  draw_background b =
      if b.background == 0
      then []
      else rect b.background b.x (P.add b.y (canvas_top P)) b.width b.height ∷ []

  unfoldable pub draw_text : Box P → List (Draw P)
  draw_text b =
      if is_empty b.inner_text
      then []
      else text b.inner_text (P.of_int b.font_size) b.color (P.add b.x b.padding_left)
          (P.add (P.add (P.add (canvas_top P) b.y) (half b.height)) (P.of_int (quot b.font_size 2)))
        ∷ []

  unfoldable pub draw_box : Box P → List (Draw P)
  draw_box b = draw_background b ++ draw_text b

  -- The loop over `divs`, with what the canvas has before it; `none` if the fuel runs out.
  unfoldable pub paint_loop : ℕ → Divs P → List (Draw P) → Option (List (Draw P))
  paint_loop zero ds canvas = none
  paint_loop (suc f) nil canvas = some canvas
  paint_loop (suc f) (cons (div b cs) ds) canvas =
      paint_loop f (push_back P ds cs) (canvas ++ draw_box b)

  unfoldable pub on_paint : Option (Div P) → Option (List (Draw P))
  on_paint root =
      paint_loop (suc (count_all P (start_divs P root))) (start_divs P root) (clear ∷ [])
