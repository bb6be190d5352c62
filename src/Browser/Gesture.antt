-- ===== src/Browser/Gesture.antt =====
-- What a press, any number of moves and a release do together.
use cpp_custom.Prelude.{
  Bool, List, Option, [], false, none, refl, some, true, ℕ, ◌++◌, ◌∷◌, ◌≡◌, ◌+◌, ◌∙◌, inl, inr,
  Bool-cases, codes, if◌then◌else◌,
}
use cpp_custom.Prelude.Int.{ℤ}
use cpp_custom.Browser.Types.{Box, Browser, Click, Div, InputState, Page, Platform, Point, div}
use cpp_custom.Browser.Levels.{find_div-levels, last_hit, level_order}
use cpp_custom.Browser.Mouse.{
  Reply, count_all, dispatch, make_point, new_click, no_return, on_click, on_component_click,
  on_mouse, out_of_fuel, press, pressed, release, reply, start_divs, undefined,
}

pub record Event : Type 0 where
  pub x : ℤ
  pub y : ℤ
  pub state : InputState
  pub keys : ℕ

abbrev pub at : InputState → ℤ × ℤ × ℕ → Event
at s (x, y, keys) = record { x = x; y = y; state = s; keys = keys }

abbrev pub moves : List (ℤ × ℤ × ℕ) → List Event
moves [] = []
moves (d ∷ ds) = at InputState.move d ∷ moves ds

module _ (P : Platform) (call : P.Js → P.Js → Page P → Page P) where
  abbrev after : Reply P → (Bool → Browser P → Reply P) → Reply P
  after (reply r b) f = f r b
  after (no_return b) f = no_return b
  after undefined f = undefined
  after out_of_fuel f = out_of_fuel

  -- The replies to some events; the last one is kept.
  unfoldable pub run_events : List Event → Bool → Browser P → Reply P
  run_events [] r b = reply r b
  run_events (e ∷ es) r b = after (on_mouse P call e.x e.y e.state e.keys b) (run_events es)

  -- Where the mouse is after some moves.
  abbrev pub reached : Point P → List (ℤ × ℤ × ℕ) → Point P
  reached p [] = p
  reached p ((x, y, keys) ∷ ds) = reached (make_point P x y) ds

  abbrev pub released : Point P → Point P → List (ℤ × ℤ × ℕ) → ℤ × ℤ × ℕ → Click P → Click P
  released o p ds (x, y, keys) c = record c {
    orig = o;
    prev = reached p ds;
    curr = make_point P x y;
    state = InputState.up;
    modifier_keys = keys;
  }

  -- A click on the page: its first div has a new text and is drawn again, and no click is pending.
  abbrev pub clicked_page : Browser P → Option (Div P) → Reply P
  clicked_page b none = undefined
  clicked_page b (some (div top ds)) = reply false (record {
    page = record {
      root = some (div (record top { inner_text = codes "global response" }) ds);
      invals = b.page.invals + 1;
      world = b.page.world;
    };
    click = none;
  })

  -- A click on a div with a function: the function is called once and the page drawn again; the
  -- handler ends without its return, with the click still there.
  abbrev pub clicked_div : Box P → Point P → List (ℤ × ℤ × ℕ) → ℤ × ℤ × ℕ → Browser P → Reply P
  clicked_div box p ds (x, y, keys) b =
      let called = call box.on_click box.click_this b.page in
      no_return (record {
        page = record { root = called.root; invals = called.invals + 1; world = called.world };
        click = some (record {
          orig = p;
          prev = reached p ds;
          curr = make_point P x y;
          state = InputState.up;
          modifier_keys = keys;
          this = some box.click_this;
          func = some box.on_click;
          has_func = true;
        });
      })

  -- The whole gesture, by the box that the press found.
  abbrev pub gesture : Point P → List (ℤ × ℤ × ℕ) → ℤ × ℤ × ℕ → Browser P → Option (Box P) → Reply P
  gesture p ds q b none = reply false (record b { click = none })
  gesture p ds q b (some box) =
      if P.is_undefined box.on_click then clicked_page b b.page.root else clicked_div box p ds q b

  abbrev then_up : List (ℤ × ℤ × ℕ) → ℤ × ℤ × ℕ → List Event
  then_up ds q = moves ds ++ at InputState.up q ∷ []

  after-done : (r : Reply P) → after r (run_events []) ≡ r
  unfolding run_events
  after-done (reply r b) = refl
  after-done (no_return b) = refl
  after-done undefined = refl
  after-done out_of_fuel = refl

  run_events-idle :
      (ds : List (ℤ × ℤ × ℕ)) (q : ℤ × ℤ × ℕ) (r : Bool) (b : Browser P)
      → run_events (then_up ds q) r (record b { click = none })
        ≡ reply false (record b { click = none })
  unfolding run_events on_mouse
  run_events-idle [] q r b = refl
  run_events-idle (d ∷ ds) q r b = run_events-idle ds q false b

  run_events-drag :
      (ds : List (ℤ × ℤ × ℕ)) (q : ℤ × ℤ × ℕ) (r : Bool) (b : Browser P) (c : Click P)
      → run_events (then_up ds q) r (record b { click = some c }) ≡ (
          let c' = released c.orig c.curr ds q c in
          release P call (dispatch P call c' (record b { click = some c' })))
  unfolding run_events on_mouse
  run_events-drag [] q r b c = after-done _
  run_events-drag ((x, y, keys) ∷ ds) q r b c = run_events-drag ds q false b (record c {
    prev = c.curr;
    curr = make_point P x y;
    state = InputState.move;
    modifier_keys = keys;
  })

  on_click-page :
      (b : Browser P) (c : Click P)
      → release P call (on_click P call (record b { click = some c })) ≡ clicked_page b b.page.root
  unfolding on_click
  on_click-page b c = by_root b.page.root
    where
      by_root :
          (o : Option (Div P))
          → release P call
              (on_click P call (record { page = record b.page { root = o }; click = some c }))
            ≡ clicked_page b o
      by_root none = refl
      by_root (some (div top ds)) = refl

  -- The click that the press makes of a box.
  abbrev click_on : Point P → ℕ → Box P → Click P
  click_on p keys box = pressed P call p keys (
      if P.is_undefined box.on_click
      then new_click P none none false
      else new_click P (some box.click_this) (some box.on_click) true)

  released-gesture :
      (p : Point P) (keys : ℕ) (ds : List (ℤ × ℤ × ℕ)) (q : ℤ × ℤ × ℕ) (b : Browser P) (box : Box P)
      → (let c = released p p ds q (click_on p keys box) in
          release P call (dispatch P call c (record b { click = some c })))
        ≡ gesture p ds q b (some box)
  unfolding on_component_click
  released-gesture p keys ds q b box = elim (Bool-cases (P.is_undefined box.on_click)) [
    | inl e ↦ rw e (on_click-page b (released p p ds q (new_click P none none false)))
    | inr e ↦ rw e refl
  ]

  -- A press at a point, any moves and a release, from any state of the browser, go by the last div in
  -- level order that the point of the press is in. Without one, no click is pending afterwards and
  -- nothing else has changed. If that div has no function, the text of the page's first div is replaced,
  -- the page is drawn again and no click is pending. If it has one, that function is called once, on the
  -- value kept with it, and the page drawn again; then the handler ends without its return, which is
  -- undefined behaviour, with a click that has the point of the press, the last point before the release
  -- and that of the release.
  pub run_events-gesture :
      (x y : ℤ) (keys : ℕ) (ds : List (ℤ × ℤ × ℕ)) (q : ℤ × ℤ × ℕ) (r : Bool) (b : Browser P)
      → run_events (at InputState.down (x, y, keys) ∷ moves ds ++ at InputState.up q ∷ []) r b
        ≡ gesture (make_point P x y) ds q b (
            last_hit P
              (make_point P x y)
              (level_order P (count_all P (start_divs P b.page.root)) (start_divs P b.page.root))
              none)
  unfolding run_events on_mouse
  run_events-gesture x y keys ds q r b = rw (find_div-levels P (make_point P x y) b.page.root) (
      hit (
        last_hit P (make_point P x y)
          (level_order P (count_all P (start_divs P b.page.root)) (start_divs P b.page.root)) none))
    where
      hit :
          (o : Option (Box P))
          → after (press P call (make_point P x y) keys b (some o)) (run_events (then_up ds q))
            ≡ gesture (make_point P x y) ds q b o
      hit none = run_events-idle ds q false b
      hit (some box) =
          run_events-drag ds q true b (click_on (make_point P x y) keys box)
          ∙ released-gesture (make_point P x y) keys ds q b box
