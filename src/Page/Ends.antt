-- ===== src/Page/Ends.antt =====
-- domToDiv and parseDOM: lemmas on how they end and what they keep.
use cpp_custom.Prelude.{
  Bool, Bytes, List, Option, [], ◌∷◌, ◌++◌, none, some, ℕ, zero, suc, ◌+◌, ◌≤◌, ◌<◌, ◌≡◌, refl, sym,
  ap, subst, ◌∙◌, arith, codes, equal, length, get_elem?,
}
use cpp_custom.Browser.Types.{Platform, Box}
use cpp_custom.Page.Types.{Outcome, Children, Element, Document, Engine, done}
use cpp_custom.Page.Store.{find}
use cpp_custom.Page.Draw.{
  or_undefined, element_at, register_id, new_box, bind_click, with_click, dom_to_div, str_val,
  run_script, Step, parse_all, parse_content, parse_dom,
}
use cpp_custom.Page.Outcome.{Ends, Ends-bind, Ends-mono, Ends-test}
use cpp_custom.Page.Keeps.{Keeps, Keeps-refl, Keeps-trans, register-Keeps}
use cpp_custom.Page.Forward.{Between, Behind, Forward, Forward-at}

-- Every script that runs while a page is drawn ends, and changes no element, takes no id away and loads no
-- page; that readyJSDocument is undefined is not ruled out where not `strict`.
pub record Quiet {P : Platform} (strict : Bool) (E : Engine P) : Type 0 where
  pub eval : (code : Bytes) (d : Document P) → Ends strict (λ r. Keeps d r.1) (E.eval code d)
  pub ready : (w : P.World) → Ends strict (λ w'. Unit {0}) (E.ready w)
  pub job : (d : Document P) → Ends strict (Keeps d) (E.run_job d)

-- The elements are laid out forward and, where `strict`, have numbers that stoi reads.
pub record Drawable {P : Platform} (strict : Bool) (E : Engine P) (es : List Element) : Type 0 where
  pub forward : Forward strict 0 (length es) es
  pub boxes :
      (i : ℕ) (e : Element) → get_elem? es i ≡ some e → Ends strict (λ b. Unit {0}) (new_box E e)

get_elem-total :
    (xs : List Element) (i : ℕ) → i < length xs → (e : Element) × (get_elem? xs i ≡ some e)
get_elem-total [] i lt = absurd (omega arith)
get_elem-total (x ∷ xs) zero lt = (x, refl)
get_elem-total (x ∷ xs) (suc i) lt = get_elem-total xs i (omega arith)

or_undefined-Ends :
    {A : Type 0} (strict : Bool) (o : Option A) (a : A)
    → o ≡ some a
    → Ends strict (λ x. o ≡ some x) (or_undefined o)
or_undefined-Ends strict none a e = ground arith
or_undefined-Ends strict (some x) a e = refl

module _ {P : Platform} (strict : Bool) (E : Engine P) (quiet : Quiet strict E) where
  abbrev pub Kept : {A : Type 0} → Document P → A × Document P → Type 0
  Kept d r = Keeps d r.1

  pub element_at-Ends :
      (i : ℕ) (d : Document P)
      → i < length d.elements
      → Ends strict (λ e. get_elem? d.elements i ≡ some e) (element_at i d)
  element_at-Ends i d lt =
      let (e, at) = get_elem-total d.elements i lt in
      or_undefined-Ends strict (get_elem? d.elements i) e at

  -- What a later call keeps.
  after :
      {A : Type 0} (d d' : Document P) (x : Outcome (A × Document P))
      → Keeps d d'
      → Ends strict (Kept d') x
      → Ends strict (Kept d) x
  after d d' x k = Ends-mono strict (Kept d') (Kept d) x λ r k'. Keeps-trans d d' r.1 k k'

  pub shorter :
      (i : ℕ) (d d' : Document P) → Keeps d d' → i < length d.elements → i < length d'.elements
  shorter i d d' k lt = omega (arith, ap length k.elements)

  register_id-Ends :
      (i : ℕ) (d : Document P) → i < length d.elements → Ends strict (Keeps d) (register_id i d)
  unfolding register_id
  register_id-Ends i d lt =
      Ends-bind strict (λ e. get_elem? d.elements i ≡ some e) (Keeps d) (element_at i d) _
        (element_at-Ends i d lt) λ e at. register-Keeps e i d (find (codes "id") e.attributes) lt

  bind_click-Ends :
      (i : ℕ) (box : Box P) (d : Document P) (ret : P.Js) (d' : Document P)
      → i < length d.elements
      → Keeps d d'
      → Ends strict (Kept d) (bind_click E i box (ret, d'))
  bind_click-Ends i box d ret d' lt k =
      Ends-test strict (Kept d) (done (box, d')) _ (P.is_undefined ret) (λ e. k)
        λ e.
          Ends-bind strict (Keeps d') (Kept d) (register_id i d') _
            (register_id-Ends i d' (shorter i d d' k lt)) λ d'' k'. Keeps-trans d d' d'' k k'

  with_click-Ends :
      (i : ℕ) (box : Box P) (d : Document P) (o : Option Bytes)
      → i < length d.elements
      → Ends strict (Kept d) (with_click E i box d o)
  with_click-Ends i box d none lt =
      Ends-bind strict (Keeps d) (Kept d) (register_id i d) _ (register_id-Ends i d lt) λ d' k. k
  with_click-Ends i box d (some code) lt =
      let text = codes "()=>{" ++ (code ++ codes "}") in
      Ends-bind strict (Kept d) (Kept d) (E.eval text d) _ (quiet.eval text d)
        λ (ret, d') k. bind_click-Ends i box d ret d' lt k

  pub dom_to_div-Ends :
      (i : ℕ) (d : Document P)
      → Drawable strict E d.elements
      → i < length d.elements
      → Ends strict (Kept d) (dom_to_div E i d)
  unfolding dom_to_div
  dom_to_div-Ends i d h lt =
      Ends-bind strict (λ e. get_elem? d.elements i ≡ some e) (Kept d) (element_at i d) _
        (element_at-Ends i d lt)
        λ e at.
          Ends-bind strict (λ b. Unit {0}) (Kept d) (new_box E e) _ (h.boxes i e at)
            λ box u. with_click-Ends i box d (find (codes "onclick") e.attributes) lt

  str_val-Ends :
      (i n : ℕ) (c : Children) → Behind strict i n c → Ends strict (λ t. Unit {0}) (str_val E c)
  str_val-Ends i n Children.unset h = h
  str_val-Ends i n (Children.text t) h = tt
  str_val-Ends i n (Children.nodes is) h = tt

  run_script-Ends :
      (i n : ℕ) (e : Element) (d : Document P)
      → Behind strict i n e.children
      → Ends strict (Keeps d) (run_script E e d)
  unfolding run_script
  run_script-Ends i n e d h =
      Ends-bind strict (λ t. Unit {0}) (Keeps d) (str_val E e.children) _
        (str_val-Ends i n e.children h)
        λ code u.
          Ends-bind strict (Kept d) (Keeps d) (E.eval code d) _ (quiet.eval code d) λ (ret, d') k.
            Ends-mono strict (Keeps d') (Keeps d) (E.run_job d')
              (λ d'' k'. Keeps-trans d d' d'' k k') (quiet.job d')

  -- A step on the children of an element, each of which is behind it.
  abbrev pub StepEnds : List Element → ℕ → Step E → Type 0
  StepEnds es i step =
      (c : ℕ) (d : Document P)
      → d.elements ≡ es
      → i < c
      → c < length es
      → Ends strict (Kept d) (step c d)

  parse_all-Ends :
      (es : List Element) (i : ℕ) (step : Step E) (cs : List ℕ) (d : Document P)
      → StepEnds es i step
      → d.elements ≡ es
      → Between i (length es) cs
      → Ends strict (Kept d) (parse_all E step cs d)
  unfolding parse_all
  parse_all-Ends es i step [] d s e h = Keeps-refl d
  parse_all-Ends es i step (c ∷ cs) d s e h =
      Ends-bind strict (Kept d) (Kept d) (step c d) _ (s c d e h.0.0 h.0.1) λ (o, d') k.
        Ends-bind strict (Kept d') (Kept d) (parse_all E step cs d') _
          (parse_all-Ends es i step cs d' s (k.elements ∙ e) h.1)
          λ (ds, d'') k'. Keeps-trans d d' d'' k k'

  parse_content-Ends :
      (es : List Element) (i : ℕ) (step : Step E) (box : Box P) (c : Children) (d : Document P)
      → StepEnds es i step
      → d.elements ≡ es
      → Behind strict i (length es) c
      → Ends strict (Kept d) (parse_content E step box c d)
  unfolding parse_content
  parse_content-Ends es i step box Children.unset d s e h = h
  parse_content-Ends es i step box (Children.text t) d s e h = Keeps-refl d
  parse_content-Ends es i step box (Children.nodes is) d s e h =
      Ends-bind strict (Kept d) (Kept d) (parse_all E step is d) _
        (parse_all-Ends es i step is d s e h) λ (ds, d') k. k

  pub element-Behind :
      (es : List Element) (i : ℕ) (e : Element)
      → Drawable strict E es
      → get_elem? es i ≡ some e
      → Behind strict i (length es) e.children
  element-Behind es i e h at = Forward-at strict 0 (length es) es i i e (omega arith) h.forward at

  -- A fuel of the elements from the one drawn on is enough.
  pub parse_dom-Ends :
      (es : List Element) (f i : ℕ) (d : Document P)
      → Drawable strict E es
      → d.elements ≡ es
      → i < length es
      → length es ≤ i + f
      → Ends strict (Kept d) (parse_dom E f i d)
  unfolding parse_dom
  parse_dom-Ends es zero i d h e lt le = absurd (omega arith)
  parse_dom-Ends es (suc f) i d h e lt le =
      let here = subst (λ xs. i < length xs) (sym e) lt in
      let drawable = subst (Drawable strict E) (sym e) h in
      Ends-bind strict (λ x. get_elem? d.elements i ≡ some x) (Kept d) (element_at i d) _
        (element_at-Ends i d here)
        λ x at.
          Ends-test strict (Kept d) _ _ (equal x.name (codes "script"))
            (λ s.
              Ends-bind strict (Keeps d) (Kept d) (run_script E x d) _
                (run_script-Ends i (length d.elements) x d
                  (element-Behind d.elements i x drawable at))
                λ d' k. k)
            (λ s.
              Ends-bind strict (Kept d) (Kept d) (dom_to_div E i d) _
                (dom_to_div-Ends i d drawable here)
                λ (box, d') k.
                  let e' = k.elements ∙ e in
                  Ends-bind strict (λ y. get_elem? d'.elements i ≡ some y) (Kept d)
                    (element_at i d') _ (element_at-Ends i d' (shorter i d d' k here))
                    λ y at'. after d d' (parse_content E (parse_dom E f) box y.children d') k (
                      parse_content-Ends es i (parse_dom E f) box y.children d'
                        (λ c d'' e'' lo hi. parse_dom-Ends es f c d'' h e'' hi (omega arith)) e'
                        (element-Behind es i y h (subst (λ xs. get_elem? xs i ≡ some y) e' at'))))
