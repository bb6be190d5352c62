-- ===== src/Editor/Scroll.antt =====
-- setFont, loadFile, onResize, onAttach, inval, scroll and onMouseWheel.
use cpp_custom.Prelude.{Bool, Bytes, Option, true, ◌||◌, none, some, ◌+◌, if◌then◌else◌, codes}
use cpp_custom.Prelude.Int.{ℤ, ◌+ℤ◌, ◌-ℤ◌, neg, times, quot, less, min, max, pos}
use cpp_custom.Editor.Types.{Editor, Layer}

module _ (E : Editor) where
  abbrev pub inval : Layer E → Layer E
  inval l = record l { invals = if l.parent then l.invals + 1 else l.invals }

  abbrev pub on_attach : Layer E → Layer E
  on_attach l = record l { parent = true }

  abbrev pub set_font : Layer E → Layer E
  set_font l = record l { editor = E.set_font l.typeface_index l.font_size l.editor }

  -- The file's bytes, or `none` if it cannot be read.
  unfoldable pub load_file : Bytes → Option Bytes → Layer E → Layer E
  load_file path none l = record l { path = codes "output.txt" }
  load_file path (some content) l = record l {
    path = path;
    editor = E.insert (E.at 0 0) content l.editor;
  }

  abbrev pub set_width : ℤ → Layer E → Layer E
  set_width width l = record l {
    width = width;
    editor = E.set_width (width -ℤ times l.margin 2) l.editor;
  }

  abbrev pub differ : ℤ → ℤ → Bool
  differ a b = less a b || less b a

  unfoldable pub on_resize : ℤ → ℤ → Layer E → Layer E
  on_resize width height l =
      let tall : Layer E = record l { height = height } in
      if differ l.width width || differ l.height height
      then inval (if differ width l.width then set_width width tall else tall)
      else l

  abbrev pub max_pos : Layer E → ℤ
  max_pos l = max (pos 0) (E.height l.editor +ℤ times l.margin 2 -ℤ quot l.height 2)

  unfoldable pub scroll : ℤ → Layer E → Layer E × Bool
  scroll delta l =
      let new_pos = max (pos 0) (min (l.pos +ℤ delta) (max_pos l)) in
      (if differ new_pos l.pos then inval (record l { pos = new_pos }) else l, true)

  unfoldable pub on_mouse_wheel : E.Scalar → Layer E → Layer E × Bool
  unfolding scroll
  on_mouse_wheel delta l = scroll (neg (E.to_int (E.mul delta (E.spacing l.editor)))) l
