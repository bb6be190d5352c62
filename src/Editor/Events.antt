-- ===== src/Editor/Events.antt =====
-- The events of the window, and sequences of them.
use cpp_custom.Prelude.{List, [], ◌∷◌, ℕ}
use cpp_custom.Prelude.Int.{ℤ}
use cpp_custom.Editor.Types.{Editor, Modifiers, InputState, Key, Layer}
use cpp_custom.Editor.Scroll.{on_resize, on_mouse_wheel}
use cpp_custom.Editor.Cursor.{on_mouse, on_char, on_key}

module _ (E : Editor) where
  pub data Event : Type 0 where
    char : ℕ → Modifiers → Event
    key : Key → InputState → Modifiers → Event
    mouse : ℤ → ℤ → InputState → Modifiers → Event
    wheel : E.Scalar → Event
    resize : ℤ → ℤ → Event

  unfoldable pub handle : Event → Layer E → Layer E
  unfolding on_char on_key on_mouse on_mouse_wheel on_resize
  handle (Event.char c m) l = (on_char E c m l).0
  handle (Event.key k s m) l = (on_key E k s m l).0
  handle (Event.mouse x y s m) l = (on_mouse E x y s m l).0
  handle (Event.wheel d) l = (on_mouse_wheel E d l).0
  handle (Event.resize w h) l = on_resize E w h l

  unfoldable pub run : List Event → Layer E → Layer E
  run [] l = l
  run (e ∷ es) l = run es (handle e l)
