-- ===== src/Page/Sample.antt =====
-- A page of a div with another in it, and an engine that keeps the scripts, for tests.
use cpp_custom.Prelude.{
  Bool, Bytes, List, Option, [], ◌∷◌, true, false, none, some, ℕ, zero, suc, ◌+◌, ◌≡◌, refl, subst,
  some-injective, arith, ltb, if◌then◌else◌, codes, equal, get_elem?, set,
}
use cpp_custom.Prelude.Int.{ℤ, pos, negsuc}
use cpp_custom.Browser.Types.{Platform, Page}
use cpp_custom.Page.Types.{Children, Element, Document, Palette, Engine, done}
use cpp_custom.Page.Draw.{new_box}
use cpp_custom.Page.Outcome.{Ends}
use cpp_custom.Page.Keeps.{Keeps, Keeps-refl}
use cpp_custom.Page.Ends.{Quiet}
use cpp_custom.Page.Changes.{with_attribute}

abbrev pub to_scalar : ℤ → ℕ
to_scalar (pos n) = n
to_scalar (negsuc n) = 0

abbrev pub absent : Option ℕ → Bool
absent none = true
absent (some n) = false

-- The engine keeps the scripts that ran, and the value of each is a function.
abbrev pub simple : Platform
simple = record {
  Scalar = ℕ;
  of_int = to_scalar;
  add = λ a b. a + b;
  less = ltb;
  Js = Option ℕ;
  is_undefined = absent;
  World = List Bytes;
}

abbrev pub colours : Palette
colours = record {
  transparent = 0;
  black = 1;
  dkgray = 2;
  gray = 3;
  ltgray = 4;
  white = 5;
  red = 6;
  green = 7;
  blue = 8;
  yellow = 9;
  cyan = 10;
  magenta = 11;
}

abbrev pub note : Bytes → Document simple → Document simple
note code d = let g = d.page in record d { page = record g { world = code ∷ g.world } }

abbrev pub page_file : Bytes
page_file =
    codes "<html><div id=\"a\" width=\"20\" fontSize=\"20\" color=\"red\">hello</div></html>"

abbrev pub engine : Engine simple
engine = record {
  eval = λ code d. done (some 1, note code d);
  run_job = λ d. done d;
  ready = λ w. done w;
  global = some 0;
  nothing = none;
  palette = colours;
  file = λ path. if equal path (codes "p.html") then some page_file else none;
  chunks = λ uri. none;
  fits = λ n. true;
}

abbrev pub no_page : Page simple
no_page = record { root = none; invals = 0; world = [] }

abbrev pub start : Document simple
start = record { elements = []; ids = []; root = none; drawn = 0; page = no_page }

abbrev pub element : Bytes → List (Bytes × Bytes) → Children → Element
element name attrs children = record {
  name = name;
  attributes = attrs;
  inner_html = codes "";
  children = children;
}

abbrev pub first_div : Element
first_div =
    element (codes "div")
      ((codes "id", codes "a") ∷ (codes "width", codes "20") ∷ (codes "fontSize", codes "20") ∷ [])
      (Children.nodes (2 ∷ []))

abbrev pub old_text : Element
old_text = element (codes "b") ((codes "id", codes "b") ∷ []) (Children.text (codes "old"))

abbrev pub sample : Document simple
sample = record start {
  elements = element (codes "html") [] (Children.nodes (1 ∷ [])) ∷ first_div ∷ old_text ∷ [];
  ids = (codes "a", 1) ∷ (codes "b", 2) ∷ [];
  root = some 0;
}

note-Keeps : (code : Bytes) (d : Document simple) → Keeps d (note code d)
note-Keeps code d = record {
  elements = refl;
  root = refl;
  ids = λ id i h. h;
  in_range = λ n e h. h;
}

pub engine-Quiet : (strict : Bool) → Quiet strict engine
engine-Quiet strict = record { eval = note-Keeps; ready = λ w. tt; job = Keeps-refl }

-- A box for every element.
abbrev pub AllBoxes : List Element → Type 0
AllBoxes [] = Unit {0}
AllBoxes (e ∷ es) = Ends true (λ b. Unit {0}) (new_box engine e) × AllBoxes es

pub AllBoxes-at :
    (es : List Element) (i : ℕ) (e : Element)
    → AllBoxes es
    → get_elem? es i ≡ some e
    → Ends true (λ b. Unit {0}) (new_box engine e)
AllBoxes-at [] i e h at = ground arith
AllBoxes-at (x ∷ es) zero e h at =
    subst (λ y. Ends true (λ b. Unit {0}) (new_box engine y)) (some-injective x e at) h.0
AllBoxes-at (x ∷ es) (suc i) e h at = AllBoxes-at es i e h.1 at

abbrev pub wide : List Element
wide = set sample.elements 1 (with_attribute (codes "width") (codes "35") first_div)
