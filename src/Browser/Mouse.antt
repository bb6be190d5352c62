-- ===== src/Browser/Mouse.antt =====
-- onMouse, onFindClickHandler, onClick and onComponentClick.
use cpp_custom.Prelude.{
  Bool, Bytes, Option, codes, false, if◌then◌else◌, none, some, suc, true, zero, ℕ, ◌+◌, ◌||◌,
}
use cpp_custom.Prelude.Int.{ℤ, pos}
use cpp_custom.Browser.Types.{
  Box, Browser, Click, Div, Divs, InputState, Page, Platform, Point, cons, div, nil,
}

-- A value that is returned, with the browser behind it. `no_return` is the end of a function that
-- has no return there, with the browser so far: what follows is undefined. `undefined` is the use of a
-- null pointer.
pub data Reply (P : Platform) : Type 0 where
  reply : Bool → Browser P → Reply P
  no_return : Browser P → Reply P
  undefined : Reply P
  out_of_fuel : Reply P

module _ (P : Platform) where
  abbrev pub canvas_top : P.Scalar
  canvas_top = P.of_int (pos 40)

  abbrev pub is_outer : Point P → Box P → Bool
  is_outer p b =
      (P.less p.x b.x || P.less p.y (P.add b.y canvas_top))
      || (P.less (P.add b.x b.width) p.x || P.less (P.add (P.add b.y b.height) canvas_top) p.y)

  abbrev pub push_back : Divs P → Divs P → Divs P
  push_back nil ds = ds
  push_back (cons c cs) ds = cons c (push_back cs ds)

  -- What `findDiv` is behind a div.
  abbrev pub visit : Point P → Box P → Option (Box P) → Option (Box P)
  visit p b found = if is_outer p b then found else some b

  -- The loop over `divs`, which appends the children of each; `none` if the fuel runs out.
  unfoldable pub find_loop : ℕ → Point P → Divs P → Option (Box P) → Option (Option (Box P))
  find_loop zero p ds found = none
  find_loop (suc f) p nil found = some found
  find_loop (suc f) p (cons (div b cs) ds) found = find_loop f p (push_back ds cs) (visit p b found)

  unfoldable mutual
    pub count : Div P → ℕ
    count (div b cs) = suc (count_all cs)

    pub count_all : Divs P → ℕ
    count_all nil = 0
    count_all (cons d ds) = count d + count_all ds

  abbrev pub start_divs : Option (Div P) → Divs P
  start_divs none = nil
  start_divs (some d) = cons d nil

  unfoldable pub find_div : Point P → Option (Div P) → Option (Option (Box P))
  find_div p root = find_loop (suc (count_all (start_divs root))) p (start_divs root) none

  abbrev pub make_point : ℤ → ℤ → Point P
  make_point x y = record { x = P.of_int x; y = P.of_int y }

  abbrev pub origin : Point P
  origin = make_point (pos 0) (pos 0)

  abbrev pub new_click : Option P.Js → Option P.Js → Bool → Click P
  new_click this func has_func = record {
    orig = origin;
    prev = origin;
    curr = origin;
    state = InputState.down;
    modifier_keys = 0;
    this = this;
    func = func;
    has_func = has_func;
  }

  abbrev pub click_of : Option (Box P) → Option (Click P)
  click_of none = none
  click_of (some b) = some (
      if P.is_undefined b.on_click
      then new_click none none false
      else new_click (some b.click_this) (some b.on_click) true)

  abbrev pub set_text : Bytes → Div P → Div P
  set_text text (div b cs) = div (record b { inner_text = text }) cs

  abbrev pub inval : Page P → Page P
  inval g = record g { invals = g.invals + 1 }

  -- `call` is JS_Call of a function, which may redraw the page.
  module _ (call : P.Js → P.Js → Page P → Page P) where
    unfoldable pub on_component_click : Click P → Browser P → Reply P
    on_component_click c b = called c.this c.func
      where
        called : Option P.Js → Option P.Js → Reply P
        called (some this) (some func) =
            no_return (record b { page = inval (call func this b.page) })
        called _ _ = undefined

    unfoldable pub on_click : Browser P → Reply P
    on_click b = global b.page.root
      where
        global : Option (Div P) → Reply P
        global none = undefined
        global (some d) = reply false (record b {
          page = inval (record b.page { root = some (set_text (codes "global response") d) });
        })

    abbrev pub dispatch : Click P → Browser P → Reply P
    dispatch c b = if c.has_func then on_component_click c b else on_click b

    abbrev pub release : Reply P → Reply P
    release (reply r b) = reply r (record b { click = none })
    release (no_return b) = no_return b
    release undefined = undefined
    release out_of_fuel = out_of_fuel

    abbrev pub pressed : Point P → ℕ → Click P → Click P
    pressed p keys c = record c {
      orig = p;
      prev = p;
      curr = p;
      state = InputState.down;
      modifier_keys = keys;
    }

    abbrev pub moved : InputState → Point P → ℕ → Click P → Click P
    moved s p keys c = record c { prev = c.curr; curr = p; state = s; modifier_keys = keys }

    -- Case kDown, with what onFindClickHandler found.
    abbrev pub press : Point P → ℕ → Browser P → Option (Option (Box P)) → Reply P
    press p keys b none = out_of_fuel
    press p keys b (some found) = hit (click_of found)
      where
        hit : Option (Click P) → Reply P
        hit none = reply false (record b { click = none })
        hit (some c) = reply true (record b { click = some (pressed p keys c) })

    abbrev pub drag : Point P → ℕ → Browser P → Option (Click P) → Reply P
    drag p keys b none = reply false b
    drag p keys b (some c) =
        reply false (record b { click = some (moved InputState.move p keys c) })

    abbrev pub lift : Point P → ℕ → Browser P → Option (Click P) → Reply P
    lift p keys b none = reply false b
    lift p keys b (some c) =
        let c' = moved InputState.up p keys c in
        release (dispatch c' (record b { click = some c' }))

    -- The assertions of the other states are not compiled into a release.
    unfoldable pub on_mouse : ℤ → ℤ → InputState → ℕ → Browser P → Reply P
    on_mouse x y InputState.down keys b =
        press (make_point x y) keys b (find_div (make_point x y) b.page.root)
    on_mouse x y InputState.move keys b = drag (make_point x y) keys b b.click
    on_mouse x y InputState.up keys b = lift (make_point x y) keys b b.click
    on_mouse x y _ keys b = reply false b
