-- ===== src/Editor/Selection.antt =====
-- The selection and the flag fShiftDown.
use cpp_custom.Prelude.{
  Bool, List, [], ◌∷◌, ◌++◌, true, false, not, ◌&&◌, ◌||◌, ℕ, ◌≡◌, arith, ◌==◌, if◌then◌else◌,
}
use cpp_custom.Prelude.Int.{ℤ, ◌+ℤ◌, ◌-ℤ◌, neg, times, quot}
use cpp_custom.Editor.Types.{Movement, Editor, Modifiers, Key, Layer}
use cpp_custom.Editor.Scroll.{on_resize, scroll, on_mouse_wheel}
use cpp_custom.Editor.Cursor.{
  convert, move, move_cursor, press_state, is_down, on_mouse, remove_between, remove_at_cursor,
  call_back, is_printable, insert_char, copy_mark, command, on_char, page, plain_key, command_key,
  on_key,
}
use cpp_custom.Editor.Events.{Event, handle, run}

-- Only while the flag is set is there a selection.
abbrev pub Anchored : (E : Editor) → Layer E → Type 0
Anchored E l = (l.shift_down || E.same l.mark_pos E.unset) ≡ true

module _ (E : Editor) (unset_same : E.same E.unset E.unset ≡ true) where
  move-Anchored :
      (p : E.Position) (shift : Bool) (l : Layer E) → Anchored E l → Anchored E (move E p shift l).0
  unfolding move
  move-Anchored p true l h = ground arith
  move-Anchored p false l h = ground arith

  scroll-Anchored : (d : ℤ) (l : Layer E) → Anchored E l → Anchored E (scroll E d l).0
  unfolding scroll
  scroll-Anchored d l h = ground arith

  remove_between-Anchored :
      (p q : E.Position) (l : Layer E) → Anchored E l → Anchored E (remove_between E p q l)
  unfolding remove_between
  remove_between-Anchored p q l h =
      let (r, text) = E.remove p q l.editor in move-Anchored r false (record l { editor = text }) h

  remove_at_cursor-Anchored :
      (m : Movement) (l : Layer E) → Anchored E l → Anchored E (remove_at_cursor E m l)
  unfolding remove_at_cursor
  remove_at_cursor-Anchored m l h = ground (
    arith,
    remove_between-Anchored l.mark_pos l.text_pos l h,
    remove_between-Anchored l.text_pos (E.move m l.text_pos l.editor) l h,
  )

  insert_char-Anchored : (c : ℕ) (l : Layer E) → Anchored E l → Anchored E (insert_char E c l).0
  unfolding insert_char move_cursor
  insert_char-Anchored c l h =
      let l' : Layer E = record l {
        typed = l.typed ++ c ∷ [];
        editor = E.insert l.text_pos (c ∷ []) l.editor;
      } in
      move-Anchored (E.move Movement.right l.text_pos l'.editor) false l' h

  command-Anchored : (c : ℕ) (l : Layer E) → Anchored E l → Anchored E (command E c l).0
  unfolding command
  command-Anchored c l h =
      ground (arith, remove_between-Anchored l.mark_pos l.text_pos (copy_mark E l) h)

  branch-Anchored :
      (b : Bool) (x y : Layer E × Bool)
      → Anchored E x.0
      → Anchored E y.0
      → Anchored E (if b then x else y).0
  branch-Anchored true x y h k = h
  branch-Anchored false x y h k = k

  on_char-Anchored :
      (c : ℕ) (m : Modifiers) (l : Layer E) → Anchored E l → Anchored E (on_char E c m l).0
  unfolding on_char
  on_char-Anchored c m l h =
      let plain = not (m.control || (m.option || m.command)) in
      let l' : Layer E = if plain && (c == 10) then call_back E c l else l in
      let h' : Anchored E l' = ground arith in
      branch-Anchored (plain && is_printable E c) (insert_char E c l') _
        (insert_char-Anchored c l' h')
        (branch-Anchored ((m.command || m.control) && not (m.shift || m.option)) (command E c l')
          (l', false) (command-Anchored c l' h') h')

  plain_key-Anchored :
      (k : Key) (m : Modifiers) (l : Layer E) → Anchored E l → Anchored E (plain_key E k m l).0
  unfolding plain_key move_cursor
  plain_key-Anchored Key.page_down m l h = scroll-Anchored (page E l) l h
  plain_key-Anchored Key.page_up m l h = scroll-Anchored (quot (times (neg l.height) 4) 5) l h
  plain_key-Anchored Key.delete m l h = remove_at_cursor-Anchored Movement.right l h
  plain_key-Anchored Key.back m l h = remove_at_cursor-Anchored Movement.left l h
  plain_key-Anchored Key.ok m l h = on_char-Anchored 10 m l h
  plain_key-Anchored Key.other m l h = h
  plain_key-Anchored key m l h =
      move-Anchored (E.move (convert key) l.text_pos l.editor) m.shift l h

  command_key-Anchored :
      (k : Key) (m : Modifiers) (l : Layer E) → Anchored E l → Anchored E (command_key E k m l).0
  unfolding command_key move_cursor
  command_key-Anchored Key.left m l h =
      move-Anchored (E.move Movement.word_left l.text_pos l.editor) m.shift l h
  command_key-Anchored Key.right m l h =
      move-Anchored (E.move Movement.word_right l.text_pos l.editor) m.shift l h
  command_key-Anchored _ m l h = h

  handle-Anchored : (e : Event E) (l : Layer E) → Anchored E l → Anchored E (handle E e l)
  unfolding handle on_key on_mouse on_mouse_wheel on_resize
  handle-Anchored (Event.char c m) l h = on_char-Anchored c m l h
  handle-Anchored (Event.key k s m) l h =
      ground (arith, plain_key-Anchored k m l h, command_key-Anchored k m l h)
  handle-Anchored (Event.mouse x y s m) l h =
      let l' : Layer E = record l { mouse_down = press_state E s l.mouse_down } in
      let p = E.position_of (x -ℤ l.margin) (y +ℤ l.pos -ℤ l.margin) l.editor in
      ground (arith, move-Anchored p (m.shift || not (is_down E s)) l' h)
  handle-Anchored (Event.wheel d) l h =
      scroll-Anchored (neg (E.to_int (E.mul d (E.spacing l.editor)))) l h
  handle-Anchored (Event.resize w t) l h = ground arith

  -- Whatever events come, a selection exists only while fShiftDown is set, as it does not at first.
  pub run-Anchored : (es : List (Event E)) (l : Layer E) → Anchored E l → Anchored E (run E es l)
  unfolding run
  run-Anchored [] l h = h
  run-Anchored (e ∷ es) l h = run-Anchored es (handle E e l) (handle-Anchored e l h)

-- A move without shift that does not leave the place clears the selection and not the flag: with the
-- flag set before, the next move with shift, to any other place, selects nothing.
pub move-unselected :
    (E : Editor) (p q : E.Position) (l : Layer E)
    → l.shift_down ≡ true
    → E.same p l.text_pos ≡ true
    → E.same q l.text_pos ≡ false
    → E.same q E.unset ≡ false
    → ((move E q true (move E p false l).0).1 ≡ true)
      × ((move E q true (move E p false l).0).0.mark_pos ≡ E.unset)
      × ((move E q true (move E p false l).0).0.text_pos ≡ q)
unfolding move
move-unselected E p q l s e f g = ground arith
