-- ===== src/Page/Changes.antt =====
-- What setAttribute and setInnerHtml leave behind.
use cpp_custom.Prelude.{Bytes, some, ℕ, ◌≡◌, refl, ap, get_elem?}
use cpp_custom.Html.Tree.{insert}
use cpp_custom.Browser.Types.{Platform}
use cpp_custom.Page.Types.{Outcome, ◌>>=◌, Element, Document, done}
use cpp_custom.Page.Store.{find, erase}
use cpp_custom.Page.Script.{js_new_string, option_map, value_of, find_dom, js_get_attribute}
use cpp_custom.Page.Outcome.{Ends}
use cpp_custom.Page.Keeps.{Keeps}

-- The attributes that setAttribute leaves.
abbrev pub with_attribute : Bytes → Bytes → Element → Element
with_attribute key value e = record e { attributes = insert key value (erase key e.attributes) }

module _ {P : Platform} where
  pub find_dom-some :
      (d : Document P) (id : Bytes) (i : ℕ) (e : Element)
      → find id d.ids ≡ some i
      → get_elem? d.elements i ≡ some e
      → find_dom id d ≡ done (some (i, e))
  unfolding find_dom
  find_dom-some d id i e known at = rw (known, at) refl

  pub js_get_attribute-known :
      (d : Document P) (id k : Bytes) (i : ℕ) (e : Element)
      → find id d.ids ≡ some i
      → get_elem? d.elements i ≡ some e
      → js_get_attribute id k d ≡ done (option_map js_new_string (find k e.attributes))
  unfolding js_get_attribute
  js_get_attribute-known d id k i e known at =
      ap (λ o. o >>= λ x. done (value_of k x)) (find_dom-some d id i e known at)
