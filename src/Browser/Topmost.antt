-- ===== src/Browser/Topmost.antt =====
-- What onPaint draws, and which of the divs a click finds.
use cpp_custom.Prelude.{
  List, Option, [], ◌∷◌, ◌++◌, none, some, ℕ, zero, suc, ◌≡◌, refl, sym, ap, ◌∙◌, arith, length,
  append-nil, append_assoc,
}
use cpp_custom.Browser.Types.{Platform, Point, Box, Div, Divs, div, nil, cons}
use cpp_custom.Browser.Mouse.{count_all, start_divs, find_div}
use cpp_custom.Browser.Levels.{
  level_order, last_hit, length-level_order, walk, after_boxes, walk-levels, find_div-levels,
}
use cpp_custom.Browser.Paint.{Draw, draw_box, paint_loop, on_paint, clear}

module _ (P : Platform) (half : P.Scalar → P.Scalar) where
  -- All drawings of some boxes, one box after the other.
  abbrev pub drawn : List (Box P) → List (Draw P)
  drawn [] = []
  drawn (b ∷ bs) = draw_box P half b ++ drawn bs

  abbrev draw_on : Box P → List (Draw P) → List (Draw P)
  draw_on b canvas = canvas ++ draw_box P half b

  paint_loop-walk :
      (f : ℕ) (ds : Divs P) (canvas : List (Draw P))
      → paint_loop P half f ds canvas ≡ walk P (List (Draw P)) draw_on f ds canvas
  unfolding paint_loop walk
  paint_loop-walk zero ds canvas = refl
  paint_loop-walk (suc f) nil canvas = refl
  paint_loop-walk (suc f) (cons (div b cs) ds) canvas = paint_loop-walk f _ _

  drawn-after_boxes :
      (bs : List (Box P)) (canvas : List (Draw P))
      → after_boxes P (List (Draw P)) draw_on bs canvas ≡ canvas ++ drawn bs
  drawn-after_boxes [] canvas = sym (append-nil canvas)
  drawn-after_boxes (b ∷ bs) canvas =
      drawn-after_boxes bs (canvas ++ draw_box P half b)
      ∙ append_assoc canvas (draw_box P half b) (drawn bs)

  on_paint-levels :
      (root : Option (Div P))
      → on_paint P half root
        ≡ some (clear ∷ drawn (level_order P (count_all P (start_divs P root)) (start_divs P root)))
  unfolding on_paint
  on_paint-levels root =
      let divs : Divs P = start_divs P root in
      let n : ℕ = count_all P divs in
      paint_loop-walk (suc n) divs (clear ∷ [])
      ∙ walk-levels P (List (Draw P)) draw_on n (suc n) divs (clear ∷ []) (omega arith)
          (omega arith)
      ∙ ap some (drawn-after_boxes (level_order P n divs) (clear ∷ []))

  -- onPaint ends, having cleared the canvas and drawn every div once, level by level. What
  -- onFindClickHandler finds at a point is the div drawn last of those that the point is in, or none
  -- where there is no such div.
  pub on_paint-find_div :
      (p : Point P) (root : Option (Div P))
      → let n : ℕ = count_all P (start_divs P root) in
        let bs : List (Box P) = level_order P n (start_divs P root) in
        (on_paint P half root ≡ some (clear ∷ drawn bs))
        × (find_div P p root ≡ some (last_hit P p bs none))
        × (length bs ≡ n)
  on_paint-find_div p root = (
    on_paint-levels root,
    find_div-levels P p root,
    length-level_order P (count_all P (start_divs P root)) (start_divs P root) (omega arith),
  )
