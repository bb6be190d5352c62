-- ===== src/Page/Draw.antt =====
-- getColor, domToDiv, parseDOM and drawRoot.
use cpp_custom.Prelude.{
  Bytes, List, Option, [], ◌∷◌, ◌++◌, true, false, none, some, ℕ, zero, suc, ◌==◌, if◌then◌else◌,
  codes, equal, length, get_elem?,
}
use cpp_custom.Prelude.Int.{ℤ, pos}
use cpp_custom.Browser.Types.{Platform, Box, Div, Divs, div, nil, cons}
use cpp_custom.Page.Types.{
  Outcome, ◌>>=◌, Children, Element, Document, Palette, Engine, done, undefined, out_of_fuel,
}
use cpp_custom.Page.Store.{find, insert_id}
use cpp_custom.Page.Numbers.{stoi}
use cpp_custom.Browser.Mouse.{push_back}

unfoldable pub get_color : Palette → Bytes → ℕ → ℕ
get_color c name def =
    if equal name (codes "transparent")
    then c.transparent
    else if equal name (codes "black")
    then c.black
    else if equal name (codes "dkgray")
    then c.dkgray
    else if equal name (codes "gray")
    then c.gray
    else if equal name (codes "ltgray")
    then c.ltgray
    else if equal name (codes "white")
    then c.white
    else if equal name (codes "red")
    then c.red
    else if equal name (codes "green")
    then c.green
    else if equal name (codes "blue")
    then c.blue
    else if equal name (codes "yellow")
    then c.yellow
    else if equal name (codes "cyan")
    then c.cyan
    else if equal name (codes "magenta")
    then c.magenta
    else def

-- getNumValue: the default value is the base of the number, too.
abbrev pub read_number : ℕ → Option Bytes → Outcome ℤ
read_number def none = done (pos def)
read_number def (some text) = stoi text def

unfoldable pub get_num_value : Element → Bytes → ℕ → Outcome ℤ
unfolding find
get_num_value e key def = read_number def (find key e.attributes)

abbrev pub or_empty : Option Bytes → Bytes
or_empty none = []
or_empty (some text) = text

unfoldable pub get_str_value : Element → Bytes → Bytes
unfolding find
get_str_value e key = or_empty (find key e.attributes)

abbrev pub or_undefined {ℓ} : {A : Type ℓ} → Option A → Outcome A
or_undefined none = undefined
or_undefined (some a) = done a

module _ {P : Platform} where
  -- `dom->` of the DOM with a number.
  abbrev pub element_at : ℕ → Document P → Outcome Element
  element_at i d = or_undefined (get_elem? d.elements i)

  abbrev pub register : Element → ℕ → Document P → Option Bytes → Document P
  register e i d none = d
  register e i d (some id) = record d { ids = insert_id id i d.ids }

  -- `idDomMap->insert` at the end of domToDiv.
  unfoldable pub register_id : ℕ → Document P → Outcome (Document P)
  unfolding find
  register_id i d = do e ← element_at i d; done (register e i d (find (codes "id") e.attributes))

module _ {P : Platform} (E : Engine P) where
  -- The numbers and colours of domToDiv.
  unfoldable pub new_box : Element → Outcome (Box P)
  unfolding get_num_value get_str_value get_color
  new_box e = do
    width ← get_num_value e (codes "width") 0
    height ← get_num_value e (codes "height") 0
    x ← get_num_value e (codes "x") 0
    y ← get_num_value e (codes "y") 0
    size ← get_num_value e (codes "fontSize") 12
    left ← get_num_value e (codes "paddingLeft") 0
    done (record {
      x = P.of_int x;
      y = P.of_int y;
      width = P.of_int width;
      height = P.of_int height;
      padding_left = P.of_int left;
      inner_text = [];
      font_size = size;
      color = get_color E.palette (get_str_value e (codes "color")) E.palette.black;
      background = get_color E.palette (get_str_value e (codes "background")) E.palette.transparent;
      click_this = E.nothing;
      on_click = E.nothing;
    })

  -- The value of the function; a box without one is returned before the id is set.
  abbrev pub bind_click : ℕ → Box P → P.Js × Document P → Outcome (Box P × Document P)
  bind_click i box (ret, d) = elim (P.is_undefined ret) [
    | true ↦ done (box, d)
    | false ↦ (do
      d' ← register_id i d
      done (record box { click_this = E.global; on_click = ret }, d'))
  ]

  abbrev pub with_click : ℕ → Box P → Document P → Option Bytes → Outcome (Box P × Document P)
  with_click i box d none = register_id i d >>= λ d'. done (box, d')
  with_click i box d (some code) =
      E.eval (codes "()=>{" ++ (code ++ codes "}")) d >>= bind_click i box

  unfoldable pub dom_to_div : ℕ → Document P → Outcome (Box P × Document P)
  unfolding new_box register_id find
  dom_to_div i d = do
    e ← element_at i d
    box ← new_box e
    with_click i box d (find (codes "onclick") e.attributes)

  -- `children->strVal`, which is empty in a list.
  abbrev pub str_val : Children → Outcome Bytes
  str_val Children.unset = undefined
  str_val (Children.text t) = done t
  str_val (Children.nodes is) = done []

  unfoldable pub run_script : Element → Document P → Outcome (Document P)
  run_script e d = do code ← str_val e.children; (ret, d') ← E.eval code d; E.run_job d'

  abbrev pub Step : Type 0
  Step = ℕ → Document P → Outcome (Option (Div P) × Document P)

  -- `children.push_back`, of nothing for a script.
  abbrev pub push_front : Option (Div P) → Divs P → Divs P
  push_front none ds = ds
  push_front (some c) ds = cons c ds

  -- The loop of parseDOM over the children.
  unfoldable pub parse_all : Step → List ℕ → Document P → Outcome (Divs P × Document P)
  parse_all step [] d = done (nil, d)
  parse_all step (i ∷ is) d = do
    (o, d') ← step i d
    (ds, d'') ← parse_all step is d'
    done (push_front o ds, d'')

  -- parseDOM behind domToDiv.
  unfoldable pub parse_content :
      Step → Box P → Children → Document P → Outcome (Option (Div P) × Document P)
  unfolding parse_all
  parse_content step box Children.unset d = undefined
  parse_content step box (Children.text t) d =
      done (some (div (record box { inner_text = t }) nil), d)
  parse_content step box (Children.nodes is) d = do
    (ds, d') ← parse_all step is d
    done (some (div box ds), d')

  -- parseDOM with the div that it pushes to its parent. A script may change the elements, so they
  -- are looked up again behind it; the list of children that a loop goes through stays as it was.
  unfoldable pub parse_dom : ℕ → Step
  unfolding run_script dom_to_div parse_content
  parse_dom zero i d = out_of_fuel
  parse_dom (suc f) i d = do
    e ← element_at i d
    elim (equal e.name (codes "script")) [
      | true ↦ (do d' ← run_script e d; done (none, d'))
      | false ↦ (do
        (box, d') ← dom_to_div i d
        e' ← element_at i d'
        parse_content (parse_dom f) box e'.children d')
    ]

  abbrev pub add_div : Div P → Option (Div P) → Option (Div P)
  add_div c none = none
  add_div c (some (div box ds)) = some (div box (push_back P ds (cons c nil)))

  abbrev pub update_root : (Option (Div P) → Option (Div P)) → Document P → Document P
  update_root f d = let g = d.page in record d { page = record g { root = f g.root } }

  -- `parentDiv->children.push_back` where the parent is root div number `n`: the page shows it
  -- unless a script has drawn another one since.
  abbrev pub push_root : ℕ → Option (Div P) → Document P → Document P
  push_root n none d = d
  push_root n (some c) d = if d.drawn == n then update_root (add_div c) d else d

  -- The loop of drawRoot, which reads rootDrawObj again for each child.
  unfoldable pub draw_children : Step → List ℕ → Document P → Outcome (Document P)
  draw_children step [] d = done d
  draw_children step (i ∷ is) d = do
    (o, d') ← step i d
    draw_children step is (push_root d.drawn o d')

  abbrev pub set_root : Box P → Document P → Document P
  set_root box d = record (update_root (λ r. some (div box nil)) d) { drawn = suc d.drawn }

  abbrev pub inval_page : Document P → Document P
  inval_page d = let g = d.page in record d { page = record g { invals = suc g.invals } }

  -- drawRoot behind domToDiv.
  unfoldable pub draw_content : Step → Children → Document P → Outcome (Document P)
  unfolding draw_children
  draw_content step Children.unset d = undefined
  draw_content step (Children.text t) d = done d
  draw_content step (Children.nodes is) d = do d' ← draw_children step is d; done (inval_page d')

  -- drawRoot from `rootDOM->children` on.
  abbrev pub draw_shown : ℕ → Document P → Outcome (Document P)
  draw_shown f shown = do
    r ← or_undefined shown.root
    e ← element_at r shown
    draw_content (parse_dom f) e.children shown

  unfoldable pub draw_root : Document P → Outcome (Document P)
  unfolding dom_to_div parse_dom draw_content
  draw_root d = do
    r ← or_undefined d.root
    (box, d') ← dom_to_div r d
    draw_shown (suc (length d.elements)) (set_root box d')
