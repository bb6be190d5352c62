-- ===== src/Page/Requests.antt =====
-- The page through any sequence of loads and changes by scripts.
use cpp_custom.Prelude.{Bytes, List, Option, [], ◌∷◌, false, none, some, ℕ, ◌≡◌, get_elem?}
use cpp_custom.Browser.Types.{Platform}
use cpp_custom.Page.Types.{Outcome, ◌>>=◌, Element, Document, Engine, done}
use cpp_custom.Page.Script.{js_set_attribute, js_set_inner_html}
use cpp_custom.Page.Load.{load_uri}
use cpp_custom.Page.Outcome.{Ends}
use cpp_custom.Page.Keeps.{Keeps}
use cpp_custom.Page.Ends.{Quiet}
use cpp_custom.Page.Valid.{Valid}

pub data Request : Type 0 where
  load : Bytes → Request
  set_attribute : (id key value : Bytes) → Request
  set_inner_html : (id html : Bytes) → Request

module _ {P : Platform} (E : Engine P) where
  unfoldable pub request : Request → Document P → Outcome (Document P)
  unfolding load_uri js_set_attribute js_set_inner_html
  request (load uri) d = load_uri E uri d
  request (set_attribute id key value) d = js_set_attribute E id key value d
  request (set_inner_html id html) d = js_set_inner_html E id html d

  unfoldable pub run : List Request → Document P → Outcome (Document P)
  unfolding request
  run [] d = done d
  run (r ∷ rs) d = request r d >>= run rs

module _ {P : Platform} (E : Engine P) (quiet : Quiet false E) where
  -- The DOM of an id.
  abbrev Named : Document P → Option (ℕ × Element) → Type 0
  Named d none = Unit {0}
  Named d (some (i, e)) = get_elem? d.elements i ≡ some e
