-- ===== src/Editor/Bounds.antt =====
-- Where the window stands in the text after scrolling and after a move of the cursor.
use cpp_custom.Prelude.Int.{ℤ, ◌+ℤ◌, ◌-ℤ◌, times}
use cpp_custom.Editor.Types.{Editor, Layer}

module _ (E : Editor) where
  -- The lowest place of the window that shows a position above the lower margin.
  abbrev pub low_end : E.Position → Layer E → ℤ
  low_end p l = E.bottom p l.editor -ℤ l.height +ℤ times l.margin 2
