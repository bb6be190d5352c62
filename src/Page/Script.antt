-- ===== src/Page/Script.antt =====
-- What scripts call: the document's getElementById and the functions of an element.
use cpp_custom.Prelude.{
  Bytes, List, Option, [], ◌∷◌, ◌++◌, map, none, some, ℕ, if◌then◌else◌, codes, equal, length, set,
  ◌==◌,
}
use cpp_custom.Html.Tree.{Dom, Node, insert, dom}
use cpp_custom.Html.Result.{Result}
use cpp_custom.Html.Parser.{parse_html_to_dom}
use cpp_custom.Browser.Types.{Platform}
use cpp_custom.Page.Types.{
  Outcome, ◌>>=◌, Children, Element, Document, Engine, done, diverges, thrown, out_of_fuel,
}
use cpp_custom.Page.Store.{find, erase, flatten_node, children_of}
use cpp_custom.Page.Draw.{get_str_value, element_at, draw_root}

abbrev pub from_result {ℓ} : {A : Type ℓ} → Result A → Outcome A
from_result (Result.ok a) = done a
from_result Result.diverges = diverges
from_result Result.thrown = thrown
from_result Result.out_of_fuel = out_of_fuel

-- A property of the object that getElementById makes: its field with its first value, and the
-- scripts of its accessors.
pub record Property : Type 0 where
  pub key : Bytes
  pub field : Bytes
  pub value : Bytes
  pub get_value : Bytes
  pub set_value : Bytes

abbrev setter : Bytes → Bytes → Bytes → Bytes
setter function key field =
    codes "(val)=>{ this."
    ++ (function ++ (codes "('" ++ (key ++ (codes "',val);this." ++ (field ++ codes "=val;}")))))

-- JS_NewString of a C string: the bytes before the first zero.
unfoldable pub js_new_string : Bytes → Bytes
js_new_string [] = []
js_new_string (c ∷ cs) = let later = c ∷ js_new_string cs in if c == 0 then [] else later

unfoldable pub init_property : Element → Bytes → Property
unfolding get_str_value js_new_string
init_property e key =
    let field = codes "_" ++ key in
    record {
      key = key;
      field = field;
      value =
          js_new_string
            (if equal key (codes "innerHtml") then e.inner_html else get_str_value e key);
      get_value = codes "()=>{ return this." ++ (field ++ codes ";}");
      set_value =
          setter
            (if equal key (codes "innerHtml") then codes "setInnerHtml" else codes "setAttribute")
            key field;
    }

abbrev pub keys : List Bytes
keys = codes "id" ∷ codes "width" ∷ codes "height" ∷ codes "paddingLeft" ∷ codes "innerHtml" ∷ []

abbrev pub option_map : {A B : Type 0} → (A → B) → Option A → Option B
option_map f none = none
option_map f (some a) = some (f a)

abbrev pub value_of : Bytes → Option (ℕ × Element) → Option Bytes
value_of key none = none
value_of key (some (i, e)) = option_map js_new_string (find key e.attributes)

abbrev pub properties_of : Option (ℕ × Element) → Option (List Property)
properties_of none = none
properties_of (some (i, e)) = some (map (init_property e) keys)

-- The fields that the parser of an element's new content writes; it keeps the children only
-- where it stops on an error.
abbrev pub kept_children : Children → Children → Children
kept_children old Children.unset = old
kept_children old children = children

abbrev pub written : ℕ → Element → Dom → Element
written n e (dom name attrs inner children) = record {
  name = name;
  attributes = attrs;
  inner_html = inner;
  children = kept_children e.children (children_of n children);
}

abbrev pub new_elements : ℕ → Dom → List Element
new_elements n (dom name attrs inner children) = flatten_node n children

module _ {P : Platform} where
  -- The number behind an id, with the DOM.
  abbrev pub named_at : Document P → Option ℕ → Outcome (Option (ℕ × Element))
  named_at d none = done none
  named_at d (some i) = element_at i d >>= λ e. done (some (i, e))

  unfoldable pub find_dom : Bytes → Document P → Outcome (Option (ℕ × Element))
  unfolding find
  find_dom id d = named_at d (find id d.ids)

  -- `none` is JS_UNDEFINED.
  unfoldable pub js_get_attribute : Bytes → Bytes → Document P → Outcome (Option Bytes)
  unfolding find_dom find js_new_string
  js_get_attribute id key d = find_dom id d >>= λ o. done (value_of key o)

  unfoldable pub js_get_element_by_id : Bytes → Document P → Outcome (Option (List Property))
  unfolding find_dom init_property
  js_get_element_by_id id d = find_dom id d >>= λ o. done (properties_of o)

  abbrev pub put_element : ℕ → Element → Document P → Document P
  put_element i e d = record d { elements = set d.elements i e }

  abbrev pub store_content : ℕ → Element → Document P → Dom → Document P
  store_content i e d t =
      let n = length d.elements in
      record d { elements = set d.elements i (written n e t) ++ new_elements n t }

module _ {P : Platform} (E : Engine P) where
  abbrev pub set_in : Bytes → Bytes → Document P → Option (ℕ × Element) → Outcome (Document P)
  set_in key value d none = done d
  set_in key value d (some (i, e)) =
      draw_root E
        (put_element i (record e { attributes = insert key value (erase key e.attributes) }) d)

  unfoldable pub js_set_attribute : Bytes → Bytes → Bytes → Document P → Outcome (Document P)
  unfolding find_dom erase insert draw_root
  js_set_attribute id key value d = find_dom id d >>= set_in key value d

  abbrev pub set_content : Bytes → Document P → Option (ℕ × Element) → Outcome (Document P)
  set_content html d none = done d
  set_content html d (some (i, e)) = do
    t ← from_result (parse_html_to_dom html (dom e.name e.attributes html Node.unset))
    draw_root E (store_content i e d t)

  unfoldable pub js_set_inner_html : Bytes → Bytes → Document P → Outcome (Document P)
  unfolding find_dom draw_root parse_html_to_dom
  js_set_inner_html id html d = find_dom id d >>= set_content html d
