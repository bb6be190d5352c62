-- ===== src/Editor/Address.antt =====
-- onSearchChar of the browser, which the layer calls for each character: the address that is loaded.
use cpp_custom.Prelude.{
  append-nil, append_assoc, Bool, Bytes, List, [], ◌∷◌, ◌++◌, true, false, not, ◌&&◌, ◌||◌, ℕ, ◌≡◌,
  refl, sym, ap, ◌∙◌, inl, inr, arith, ltb, leb, ◌==◌, if◌then◌else◌, Bool-cases,
}
use cpp_custom.Prelude.Int.{ℤ, ◌+ℤ◌, ◌-ℤ◌, neg, times, quot}
use cpp_custom.Editor.Types.{Movement, Editor, Modifiers, InputState, Key, Layer}
use cpp_custom.Editor.Scroll.{on_resize, scroll, on_mouse_wheel}
use cpp_custom.Editor.Cursor.{
  convert, move, move_cursor, press_state, is_down, on_mouse, remove_between, remove_at_cursor,
  call_back, is_printable, insert_char, copy_mark, command, on_char, page, plain_key, command_key,
  on_key,
}
use cpp_custom.Editor.Events.{Event, handle, run}
use cpp_custom.Browser.Fetch.{without_ends}

-- `address`, and the addresses that loadUri was called with.
pub record Bar : Type 0 where
  pub address : Bytes
  pub loaded : List Bytes

unfoldable pub on_search_char : ℕ → Bar → Bar
on_search_char c b =
    if c == 10
    then record b { loaded = b.loaded ++ b.address ∷ [] }
    else record b { address = b.address ++ c ∷ [] }

-- The calls for the characters that the layer gave.
unfoldable pub search : Bytes → Bar → Bar
search [] b = b
search (c ∷ cs) b = search cs (on_search_char c b)

module _ (E : Editor) where
  -- The characters of an event that the callback gets: what can be printed and the line end, with
  -- none of control, option and command, and the line end for the key OK.
  abbrev pub is_plain : Modifiers → Bool
  is_plain m = not (m.control || (m.option || m.command))

  abbrev pub typed_char : ℕ → Modifiers → Bytes
  typed_char c m = if is_plain m && (c == 10 || (leb 32 c && ltb c 127)) then c ∷ [] else []

  abbrev pub typed_key : Key → InputState → Modifiers → Bytes
  typed_key Key.ok InputState.down m = if is_plain m then 10 ∷ [] else []
  typed_key _ s m = []

  abbrev pub typed_by : Event E → Bytes
  typed_by (Event.char c m) = typed_char c m
  typed_by (Event.key k s m) = typed_key k s m
  typed_by _ = []

  abbrev pub typed_by_all : List (Event E) → Bytes
  typed_by_all [] = []
  typed_by_all (e ∷ es) = typed_by e ++ typed_by_all es

  move-typed : (p : E.Position) (shift : Bool) (l : Layer E) → (move E p shift l).0.typed ≡ l.typed
  unfolding move
  move-typed p shift l = ground arith

  scroll-typed : (d : ℤ) (l : Layer E) → (scroll E d l).0.typed ≡ l.typed
  unfolding scroll
  scroll-typed d l = ground arith

  remove_between-typed : (p q : E.Position) (l : Layer E) → (remove_between E p q l).typed ≡ l.typed
  unfolding remove_between
  remove_between-typed p q l =
      let (r, text) = E.remove p q l.editor in move-typed r false (record l { editor = text })

  remove_at_cursor-typed : (m : Movement) (l : Layer E) → (remove_at_cursor E m l).typed ≡ l.typed
  unfolding remove_at_cursor
  remove_at_cursor-typed m l = ground (
    arith,
    remove_between-typed l.mark_pos l.text_pos l,
    remove_between-typed l.text_pos (E.move m l.text_pos l.editor) l,
  )

  insert_char-typed : (c : ℕ) (l : Layer E) → (insert_char E c l).0.typed ≡ l.typed ++ c ∷ []
  unfolding insert_char move_cursor
  insert_char-typed c l =
      let l' : Layer E = record l {
        typed = l.typed ++ c ∷ [];
        editor = E.insert l.text_pos (c ∷ []) l.editor;
      } in
      move-typed (E.move Movement.right l.text_pos l'.editor) false l'

  command-typed : (c : ℕ) (l : Layer E) → (command E c l).0.typed ≡ l.typed
  unfolding command
  command-typed c l = ground (arith, remove_between-typed l.mark_pos l.text_pos (copy_mark E l))

  branch-typed :
      (b : Bool) (x y : Layer E × Bool) (t u : Bytes)
      → x.0.typed ≡ t
      → y.0.typed ≡ u
      → (if b then x else y).0.typed ≡ (if b then t else u)
  branch-typed true x y t u h k = h
  branch-typed false x y t u h k = k

  on_char-typed :
      (c : ℕ) (m : Modifiers) (l : Layer E) → (on_char E c m l).0.typed ≡ l.typed ++ typed_char c m
  unfolding on_char
  on_char-typed c m l =
      let plain = is_plain m in
      let l' : Layer E = if plain && (c == 10) then call_back E c l else l in
      let b = plain && is_printable E c in
      let d = (m.command || m.control) && not (m.shift || m.option) in
      branch-typed b (insert_char E c l') _ _ _ (insert_char-typed c l')
        (branch-typed d (command E c l') (l', false) _ _ (command-typed c l') refl)
      ∙ ground (arith, append-nil l.typed)

  plain_key-typed :
      (k : Key) (m : Modifiers) (l : Layer E)
      → is_plain m ≡ true
      → (plain_key E k m l).0.typed ≡ l.typed ++ typed_key k InputState.down m
  unfolding plain_key move_cursor
  plain_key-typed Key.page_down m l p = scroll-typed (page E l) l ∙ sym (append-nil l.typed)
  plain_key-typed Key.page_up m l p =
      scroll-typed (quot (times (neg l.height) 4) 5) l ∙ sym (append-nil l.typed)
  plain_key-typed Key.delete m l p =
      remove_at_cursor-typed Movement.right l ∙ sym (append-nil l.typed)
  plain_key-typed Key.back m l p = remove_at_cursor-typed Movement.left l ∙ sym (append-nil l.typed)
  plain_key-typed Key.ok m l p = on_char-typed 10 m l ∙ ap (λ t. l.typed ++ t) (rw p refl)
  plain_key-typed Key.other m l p = sym (append-nil l.typed)
  plain_key-typed key m l p =
      move-typed (E.move (convert key) l.text_pos l.editor) m.shift l ∙ sym (append-nil l.typed)

  command_key-typed :
      (k : Key) (m : Modifiers) (l : Layer E) → (command_key E k m l).0.typed ≡ l.typed
  unfolding command_key move_cursor
  command_key-typed Key.left m l =
      move-typed (E.move Movement.word_left l.text_pos l.editor) m.shift l
  command_key-typed Key.right m l =
      move-typed (E.move Movement.word_right l.text_pos l.editor) m.shift l
  command_key-typed _ m l = refl

  not_plain_key :
      (k : Key) (m : Modifiers) → is_plain m ≡ false → typed_key k InputState.down m ≡ []
  not_plain_key Key.ok m p = rw p refl
  not_plain_key _ m p = refl

  not_down_key :
      (k : Key) (s : InputState) (m : Modifiers) → is_down E s ≡ false → typed_key k s m ≡ []
  not_down_key Key.ok InputState.down m p = cc
  not_down_key _ s m p = refl

  on_key-typed :
      (k : Key) (s : InputState) (m : Modifiers) (l : Layer E)
      → (on_key E k s m l).0.typed ≡ l.typed ++ typed_key k s m
  unfolding on_key
  on_key-typed k InputState.down m l = elim (Bool-cases (is_plain m)) [
    | inl p ↦ rw p (plain_key-typed k m l p)
    | inr p ↦
        rw (p, not_plain_key k m p)
          (branch-typed (m.control || m.command) (command_key E k m l) (l, false) l.typed l.typed
              (command_key-typed k m l) refl
            ∙ ground (arith, append-nil l.typed))
  ]
  on_key-typed k s m l =
      sym (append-nil l.typed) ∙ ap (λ t. l.typed ++ t) (sym (not_down_key k s m refl))

  handle-typed : (e : Event E) (l : Layer E) → (handle E e l).typed ≡ l.typed ++ typed_by e
  unfolding handle on_mouse on_mouse_wheel on_resize
  handle-typed (Event.char c m) l = on_char-typed c m l
  handle-typed (Event.key k s m) l = on_key-typed k s m l
  handle-typed (Event.mouse x y s m) l =
      let l' : Layer E = record l { mouse_down = press_state E s l.mouse_down } in
      let p = E.position_of (x -ℤ l.margin) (y +ℤ l.pos -ℤ l.margin) l.editor in
      branch-typed l'.mouse_down _ (l', false) _ _ (move-typed p (m.shift || not (is_down E s)) l')
        refl
      ∙ ground (arith, append-nil l.typed)
  handle-typed (Event.wheel d) l =
      scroll-typed (neg (E.to_int (E.mul d (E.spacing l.editor)))) l ∙ sym (append-nil l.typed)
  handle-typed (Event.resize w t) l = ground (arith, append-nil l.typed)

  run-typed : (es : List (Event E)) (l : Layer E) → (run E es l).typed ≡ l.typed ++ typed_by_all es
  unfolding run
  run-typed [] l = sym (append-nil l.typed)
  run-typed (e ∷ es) l =
      run-typed es (handle E e l)
      ∙ ap (λ t. t ++ typed_by_all es) (handle-typed e l)
      ∙ append_assoc l.typed (typed_by e) (typed_by_all es)

search-address : (cs : Bytes) (b : Bar) → (search cs b).address ≡ b.address ++ without_ends cs
unfolding search on_search_char without_ends
search-address [] b = sym (append-nil b.address)
search-address (c ∷ cs) b = search-address cs (on_search_char c b) ∙ step
  where
    step : (on_search_char c b).address ++ without_ends cs ≡ b.address ++ without_ends (c ∷ cs)
    step = elim (Bool-cases (c == 10)) [
      | inl e ↦ rw e refl
      | inr e ↦ rw e (append_assoc b.address (c ∷ []) (without_ends cs))
    ]

-- Whatever events reach a layer on which nothing was typed, the address is the one before with the
-- printable characters that were typed without control, option or command behind it, in the order
-- of typing: no other event takes part, be it a deletion, a paste or a move of the cursor. A call of
-- the callback for a line end then loads just that address.
pub run-address :
    (E : Editor) (es : List (Event E)) (l : Layer E) (b : Bar)
    → l.typed ≡ []
    → ((search (run E es l).typed b).address ≡ b.address ++ without_ends (typed_by_all E es))
      × ((on_search_char 10 (search (run E es l).typed b)).loaded
          ≡ (search (run E es l).typed b).loaded
            ++ (b.address ++ without_ends (typed_by_all E es)) ∷ [])
unfolding on_search_char
run-address E es l b e =
    let typed : (run E es l).typed ≡ typed_by_all E es =
      run-typed E es l ∙ ap (λ t. t ++ typed_by_all E es) e in
    let address : (search (run E es l).typed b).address
        ≡ b.address ++ without_ends (typed_by_all E es) =
      ap (λ t. (search t b).address) typed ∙ search-address (typed_by_all E es) b in
    (address, ap (λ t. (search (run E es l).typed b).loaded ++ t ∷ []) address)
