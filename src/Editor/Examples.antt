-- ===== src/Editor/Examples.antt =====
-- A simple Editor, and the theorems of the layer at concrete inputs.
use cpp_custom.Prelude.{
  Bool, Bytes, List, Option, [], ◌∷◌, ◌++◌, true, false, none, some, ℕ, ◌+◌, ◌-◌, ◌*◌, ◌≡◌, refl,
  ltb, ◌==◌, if◌then◌else◌, codes, length, take, drop,
}
use cpp_custom.Prelude.Int.{ℤ, above_zero, ◌+ℤ◌, ◌-ℤ◌, times, less, pos}
use cpp_custom.Editor.Types.{Movement, Editor, Modifiers, InputState, Key, Layer, new_layer}
use cpp_custom.Editor.Cursor.{move}
use cpp_custom.Editor.Events.{Event, run}
use cpp_custom.Editor.Selection.{Anchored, run-Anchored}
use cpp_custom.Editor.Address.{Bar, on_search_char, search, run-address}
use cpp_custom.Browser.Fetch.{without_ends}

abbrev same_place : Option ℕ → Option ℕ → Bool
same_place none none = true
same_place (some p) (some q) = p == q
same_place _ _ = false

abbrev place : Option ℕ → ℕ
place none = 0
place (some p) = p

abbrev step : Movement → ℕ → ℕ → ℕ
step Movement.left n p = p - 1
step Movement.right n p = if ltb p n then p + 1 else p
step Movement.home n p = 0
step Movement.end n p = n
step _ n p = p

-- One line of text; a position is a number of bytes, and a line of the window 20 units.
abbrev line_editor : Editor
line_editor = record {
  Text = Bytes;
  Position = Option ℕ;
  unset = none;
  at = λ p q. some p;
  same = same_place;
  insert = λ p s t. take (place p) t ++ (s ++ drop (place p) t);
  remove = λ p q t. (q, take (place q) t ++ drop (place p) t);
  copy = λ p q t. drop (place p) (take (place q) t);
  move = λ m p t. some (step m (length t) (place p));
  position_of = λ x y t. some 0;
  top = λ p t. pos (place p * 20);
  bottom = λ p t. pos (place p * 20 + 20);
  height = λ t. pos (length t * 20);
  lines = λ t. t ∷ [];
  set_width = λ w t. t;
  Scalar = ℤ;
  of_int = λ n. n;
  to_int = λ n. n;
  add = λ a b. a +ℤ b;
  sub = λ a b. a -ℤ b;
  mul = λ a b. times a (above_zero b);
  lt = less;
  set_font = λ i s t. t;
  spacing = λ t. pos 20;
}

abbrev window : Layer line_editor
window = record (new_layer line_editor (codes "file")) { parent = true; height = pos 40 }

abbrev no_keys : Modifiers
no_keys = record {
  shift = false;
  control = false;
  option = false;
  command = false;
  first_press = false;
}

-- "x", back, "y" and the key OK.
abbrev some_events : List (Event line_editor)
some_events =
    Event.char b'x' no_keys
    ∷ Event.key Key.back InputState.down no_keys
    ∷ Event.char b'y' no_keys
    ∷ Event.key Key.ok InputState.down no_keys
    ∷ []

run-Anchored_example : Anchored line_editor (run line_editor some_events window)
run-Anchored_example = run-Anchored line_editor refl some_events window refl

abbrev bar : Bar
bar = record { address = codes "file"; loaded = [] }

-- The deleted character stays in the address.
run-address_example :
    ((search (run line_editor some_events window).typed bar).address ≡ codes "filexy")
    × ((on_search_char 10 (search (run line_editor some_events window).typed bar)).loaded
        ≡ (search (run line_editor some_events window).typed bar).loaded ++ codes "filexy" ∷ [])
unfolding without_ends
run-address_example = run-address line_editor some_events window bar refl
