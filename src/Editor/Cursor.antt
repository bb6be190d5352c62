-- ===== src/Editor/Cursor.antt =====
-- move, moveCursor, onMouse, onKey and onChar.
use cpp_custom.Prelude.{
  Bool, Bytes, List, [], ◌∷◌, ◌++◌, true, false, not, ◌&&◌, ◌||◌, ℕ, ◌+◌, ◌%◌, ltb, leb, ◌==◌,
  if◌then◌else◌,
}
use cpp_custom.Prelude.Int.{ℤ, ◌+ℤ◌, ◌-ℤ◌, neg, times, quot, less, pos}
use cpp_custom.Editor.Types.{Movement, Editor, Modifiers, InputState, Key, Layer}
use cpp_custom.Editor.Scroll.{inval, set_font, scroll}

unfoldable pub convert : Key → Movement
convert Key.left = Movement.left
convert Key.right = Movement.right
convert Key.up = Movement.up
convert Key.down = Movement.down
convert Key.home = Movement.home
convert Key.end = Movement.end
convert _ = Movement.nowhere

module _ (E : Editor) where
  -- The scrolling at the end of `move`.
  abbrev pub follow : Layer E → Layer E
  follow l =
      let low = E.bottom l.text_pos l.editor -ℤ l.height +ℤ times l.margin 2 in
      let high = E.top l.text_pos l.editor in
      if less l.pos low
      then record l { pos = low }
      else if less high l.pos
      then record l { pos = high }
      else l

  abbrev pub same_bool : Bool → Bool → Bool
  same_bool true b = b
  same_bool false b = not b

  abbrev pub set_mark : Bool → Layer E → Layer E
  set_mark shift l =
      if same_bool shift l.shift_down
      then l
      else record l { mark_pos = if shift then l.text_pos else E.unset; shift_down = shift }

  unfoldable pub move : E.Position → Bool → Layer E → Layer E × Bool
  move p shift l =
      if E.same p l.text_pos || E.same p E.unset
      then (if shift then l else record l { mark_pos = E.unset }, false)
      else (inval E (follow (record (set_mark shift l) { text_pos = p })), true)

  unfoldable pub move_cursor : Movement → Bool → Layer E → Layer E × Bool
  unfolding move
  move_cursor m shift l = move (E.move m l.text_pos l.editor) shift l

  abbrev pub press_state : InputState → Bool → Bool
  press_state InputState.down b = true
  press_state InputState.up b = false
  press_state _ b = b

  abbrev pub is_down : InputState → Bool
  is_down InputState.down = true
  is_down _ = false

  unfoldable pub on_mouse : ℤ → ℤ → InputState → Modifiers → Layer E → Layer E × Bool
  unfolding move
  on_mouse x y state modifiers l =
      let l' : Layer E = record l { mouse_down = press_state state l.mouse_down } in
      if l'.mouse_down
      then move (E.position_of (x -ℤ l.margin) (y +ℤ l.pos -ℤ l.margin) l.editor)
          (modifiers.shift || not (is_down state)) l'
      else (l', false)

  abbrev pub has_mark : Layer E → Bool
  has_mark l = not (E.same l.mark_pos E.unset)

  -- `remove` of the text between two positions, and the move to where it was.
  unfoldable pub remove_between : E.Position → E.Position → Layer E → Layer E
  unfolding move
  remove_between p q l =
      let (r, text) = E.remove p q l.editor in (move r false (record l { editor = text })).0

  -- Cases kDelete and kBack, by the movement without a selection.
  unfoldable pub remove_at_cursor : Movement → Layer E → Layer E
  unfolding remove_between
  remove_at_cursor m l = inval E (
      if has_mark l
      then remove_between l.mark_pos l.text_pos l
      else remove_between l.text_pos (E.move m l.text_pos l.editor) l)

  -- A character of the callback.
  abbrev pub call_back : ℕ → Layer E → Layer E
  call_back c l = record l { typed = l.typed ++ c ∷ [] }

  abbrev pub is_printable : ℕ → Bool
  is_printable c = ltb c 127 && leb 32 c

  unfoldable pub insert_char : ℕ → Layer E → Layer E × Bool
  unfolding move_cursor
  insert_char c l =
      let l' = call_back c l in
      move_cursor Movement.right false
        (record l' { editor = E.insert l.text_pos (c ∷ []) l.editor })

  abbrev pub copy_mark : Layer E → Layer E
  copy_mark l = record l { clipboard = E.copy l.mark_pos l.text_pos l.editor }

  abbrev pub is_empty : Bytes → Bool
  is_empty [] = true
  is_empty (c ∷ cs) = false

  -- The lines with a line end between two.
  abbrev pub more_lines : List Bytes → Bytes
  more_lines [] = []
  more_lines (x ∷ xs) = 10 ∷ x ++ more_lines xs

  abbrev pub file_of : List Bytes → Bytes
  file_of [] = []
  file_of (x ∷ xs) = x ++ more_lines xs

  -- The `switch` of onChar for a command; `p` only prints.
  unfoldable pub command : ℕ → Layer E → Layer E × Bool
  unfolding remove_between
  command c l =
      if c == b'p'
      then (l, true)
      else if c == b's'
      then (record l { saved = l.saved ++ (l.path, file_of (E.lines l.editor)) ∷ [] }, true)
      else if c == b'c'
      then (if has_mark l then (copy_mark l, true) else (l, false))
      else if c == b'x'
      then (if has_mark l
          then (inval E (remove_between l.mark_pos l.text_pos (copy_mark l)), true)
          else (l, false))
      else if c == b'v'
      then (if is_empty l.clipboard
          then (l, false)
          else (inval E (record l { editor = E.insert l.text_pos l.clipboard l.editor }), true))
      else if c == b'0'
      then (set_font E (record l { typeface_index = (l.typeface_index + 1) % 3 }), true)
      else if c == b'=' || c == b'+'
      then (set_font E (record l { font_size = E.add l.font_size (E.of_int (pos 1)) }), true)
      else if c == b'-' || c == b'_'
      then (
        if E.lt (E.of_int (pos 1)) l.font_size
            then set_font E (record l { font_size = E.sub l.font_size (E.of_int (pos 1)) })
            else l,
        false,
      )
      else (l, false)

  -- `c` is the 32-bit pattern of the character.
  unfoldable pub on_char : ℕ → Modifiers → Layer E → Layer E × Bool
  unfolding insert_char command
  on_char c m l =
      let plain = not (m.control || (m.option || m.command)) in
      let l' = if plain && (c == 10) then call_back c l else l in
      if plain && is_printable c
      then insert_char c l'
      else if (m.command || m.control) && not (m.shift || m.option)
      then command c l'
      else (l', false)

  abbrev pub page : Layer E → ℤ
  page l = quot (times l.height 4) 5

  -- Keys with none of the modifiers control, option and command ...
  unfoldable pub plain_key : Key → Modifiers → Layer E → Layer E × Bool
  unfolding scroll move_cursor remove_at_cursor on_char convert
  plain_key Key.page_down m l = scroll E (page l) l
  plain_key Key.page_up m l = scroll E (quot (times (neg l.height) 4) 5) l
  plain_key Key.delete m l = (remove_at_cursor Movement.right l, true)
  plain_key Key.back m l = (remove_at_cursor Movement.left l, true)
  plain_key Key.ok m l = on_char 10 m l
  plain_key Key.other m l = (l, false)
  plain_key key m l = move_cursor (convert key) m.shift l

  -- ... and with control or command.
  unfoldable pub command_key : Key → Modifiers → Layer E → Layer E × Bool
  unfolding move_cursor
  command_key Key.left m l = move_cursor Movement.word_left m.shift l
  command_key Key.right m l = move_cursor Movement.word_right m.shift l
  command_key _ m l = (l, false)

  unfoldable pub on_key : Key → InputState → Modifiers → Layer E → Layer E × Bool
  unfolding plain_key command_key
  on_key key state m l =
      if not (is_down state)
      then (l, false)
      else if not (m.control || (m.option || m.command))
      then plain_key key m l
      else if m.control || m.command
      then command_key key m l
      else (l, false)
