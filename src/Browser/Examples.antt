-- ===== src/Browser/Examples.antt =====
-- A page of two boxes: tests of the mouse handlers, and their theorems at concrete inputs.
use cpp_custom.Prelude.{
  Bool, List, Option, [], arith, codes, false, length, ltb, none, refl, some, true, ℕ, ◌+◌, ◌/◌,
  ◌∷◌, ◌≡◌,
}
use cpp_custom.Prelude.Int.{ℤ, negsuc, pos}
use cpp_custom.Browser.Types.{Box, Browser, Div, InputState, Page, Platform, cons, div, nil}
use cpp_custom.Browser.Gesture.{at, run_events, run_events-gesture}
use cpp_custom.Browser.Content.{Memory, c_string, empty_memory, get_file_content}
use cpp_custom.Browser.Fetch.{get_file_content-without, receive, receive-unterminated, without_ends}
use cpp_custom.Browser.Levels.{last_hit, level_order}
use cpp_custom.Browser.Paint.{
  clear, draw_background, draw_box, draw_text, on_paint, paint_loop, rect, text,
}
use cpp_custom.Browser.Topmost.{drawn, on_paint-find_div}
use cpp_custom.Browser.Mouse.{count_all, find_div, find_loop, make_point, no_return, start_divs}

abbrev to_scalar : ℤ → ℕ
to_scalar (pos n) = n
to_scalar (negsuc n) = 0

abbrev absent : Option ℕ → Bool
absent none = true
absent (some n) = false

-- Functions are numbers, and the engine keeps the numbers of those that ran.
abbrev simple : Platform
simple = record {
  Scalar = ℕ;
  of_int = to_scalar;
  add = λ a b. a + b;
  less = ltb;
  Js = Option ℕ;
  is_undefined = absent;
  World = List (Option ℕ);
}

abbrev note_call : Option ℕ → Option ℕ → Page simple → Page simple
note_call func this g = record g { world = func ∷ g.world }

abbrev box_at : ℕ → ℕ → ℕ → ℕ → Option ℕ → Box simple
box_at x y w h func = record {
  x = x;
  y = y;
  width = w;
  height = h;
  padding_left = 0;
  inner_text = codes "";
  font_size = pos 12;
  color = 0;
  background = 0;
  click_this = none;
  on_click = func;
}

abbrev button : Box simple
button = box_at 10 10 20 20 (some 7)

abbrev two_boxes : Div simple
two_boxes = div (box_at 0 0 100 100 none) (cons (div button nil) nil)

abbrev page : Page simple
page = record { root = some two_boxes; invals = 0; world = [] }

abbrev browser : Browser simple
browser = record { page = page; click = none }

-- The scalars are numbers here, and `half` is their quotient.
abbrev half : ℕ → ℕ
half n = n / 2

abbrev colored : Div simple
colored =
    div (record (box_at 0 0 100 100 none) { background = 5 })
      (cons (div (record button { inner_text = codes "go" }) nil) nil)

on_paint-find_div_example :
    (on_paint simple half (some colored)
      ≡ some (
          clear
          ∷ drawn simple half (
              level_order simple
                (count_all simple (start_divs simple (some colored)))
                (start_divs simple (some colored)))))
    × (find_div simple (make_point simple (pos 15) (pos 60)) (some colored)
        ≡ some (
            last_hit simple
              (make_point simple (pos 15) (pos 60))
              (level_order simple
                (count_all simple (start_divs simple (some colored)))
                (start_divs simple (some colored)))
              none))
    × (length (
          level_order simple
            (count_all simple (start_divs simple (some colored)))
            (start_divs simple (some colored)))
        ≡ count_all simple (start_divs simple (some colored)))
on_paint-find_div_example =
    on_paint-find_div simple half (make_point simple (pos 15) (pos 60)) (some colored)

paint_colored :
    on_paint simple half (some colored)
    ≡ some (clear ∷ rect 5 0 40 100 100 ∷ text (codes "go") 12 0 10 66 ∷ [])
unfolding on_paint paint_loop count_all draw_box draw_background draw_text
paint_colored = refl

find_button :
    find_div simple (make_point simple (pos 15) (pos 60)) (some two_boxes) ≡ some (some button)
unfolding find_div find_loop count_all
find_button = refl

-- A press on the button, a move off it and a release: the button's function runs once, and nothing is returned.
run_events-gesture_example :
    run_events simple note_call
      (at InputState.down (pos 15, pos 60, 0)
        ∷ at InputState.move (pos 90, pos 90, 0)
        ∷ at InputState.up (pos 91, pos 91, 0)
        ∷ [])
      false
      browser
    ≡ no_return (record {
      page = record page { invals = 1; world = some 7 ∷ [] };
      click = some (record {
        orig = make_point simple (pos 15) (pos 60);
        prev = make_point simple (pos 90) (pos 90);
        curr = make_point simple (pos 91) (pos 91);
        state = InputState.up;
        modifier_keys = 0;
        this = some none;
        func = some (some 7);
        has_func = true;
      });
    })
unfolding last_hit level_order count_all
run_events-gesture_example =
    run_events-gesture simple note_call (pos 15) (pos 60) 0 ((pos 90, pos 90, 0) ∷ [])
      (pos 91, pos 91, 0) false browser

receive-unterminated_example :
    (mem : Memory) × (receive (λ _. true) (codes "ab" ∷ codes "c" ∷ []) empty_memory ≡ some mem)
    × (mem.buf ≡ codes "abc")
    × (c_string mem.buf ≡ none)
receive-unterminated_example =
    receive-unterminated (codes "ab" ∷ codes "c" ∷ []) (omega arith) (refl, (refl, (refl, tt)))

get_file_content-without_example :
    get_file_content (some (97 ∷ 98 ∷ 10 ∷ 99 ∷ [])) ≡ some (codes "abc")
unfolding without_ends
get_file_content-without_example = get_file_content-without (97 ∷ 98 ∷ 10 ∷ 99 ∷ [])
