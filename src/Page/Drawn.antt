-- ===== src/Page/Drawn.antt =====
-- drawRoot: lemmas on how it ends and what it keeps.
use cpp_custom.Prelude.{
  Bool, List, Option, [], ◌∷◌, none, some, ℕ, suc, ◌<◌, ◌≡◌, refl, sym, subst, ◌∙◌, arith, ◌==◌,
  length, get_elem?,
}
use cpp_custom.Browser.Types.{Platform, Box, Div}
use cpp_custom.Page.Types.{Children, Element, Document, Engine}
use cpp_custom.Page.Draw.{
  or_undefined, element_at, dom_to_div, Step, parse_dom, add_div, update_root, push_root,
  draw_children, set_root, inval_page, draw_content, draw_shown, draw_root,
}
use cpp_custom.Page.Outcome.{Ends, Ends-bind, Ends-mono, either}
use cpp_custom.Page.Keeps.{Keeps, Keeps-refl, Keeps-trans}
use cpp_custom.Page.Forward.{Between, Behind, Rooted}
use cpp_custom.Page.Ends.{
  Quiet, Drawable, Kept, element_at-Ends, shorter, dom_to_div-Ends, StepEnds, element-Behind,
  parse_dom-Ends,
}

module _ {P : Platform} (strict : Bool) (E : Engine P) (quiet : Quiet strict E) where
  update_root-Keeps :
      (f : Option (Div P) → Option (Div P)) (d : Document P) → Keeps d (update_root E f d)
  update_root-Keeps f d = record {
    elements = refl;
    root = refl;
    ids = λ id i h. h;
    in_range = λ n e h. h;
  }

  push_root-Keeps : (n : ℕ) (o : Option (Div P)) (d : Document P) → Keeps d (push_root E n o d)
  push_root-Keeps n none d = Keeps-refl d
  push_root-Keeps n (some c) d =
      either (Keeps d) (d.drawn == n) (update_root E (add_div E c) d) d
        (update_root-Keeps (add_div E c) d) (Keeps-refl d)

  draw_children-Ends :
      (es : List Element) (i : ℕ) (step : Step E) (cs : List ℕ) (d : Document P)
      → StepEnds strict E quiet es i step
      → d.elements ≡ es
      → Between i (length es) cs
      → Ends strict (Keeps d) (draw_children E step cs d)
  unfolding draw_children
  draw_children-Ends es i step [] d s e h = Keeps-refl d
  draw_children-Ends es i step (c ∷ cs) d s e h =
      Ends-bind strict (Kept strict E quiet d) (Keeps d) (step c d) _ (s c d e h.0.0 h.0.1)
        λ (o, d') k.
          let d'' = push_root E d.drawn o d' in
          let k' = Keeps-trans d d' d'' k (push_root-Keeps d.drawn o d') in
          Ends-mono strict (Keeps d'') (Keeps d) (draw_children E step cs d'')
            (λ x k''. Keeps-trans d d'' x k' k'')
            (draw_children-Ends es i step cs d'' s (k'.elements ∙ e) h.1)

  inval_page-Keeps : (d : Document P) → Keeps d (inval_page E d)
  inval_page-Keeps d = record {
    elements = refl;
    root = refl;
    ids = λ id i h. h;
    in_range = λ n e h. h;
  }

  set_root-Keeps : (box : Box P) (d : Document P) → Keeps d (set_root E box d)
  set_root-Keeps box d = record {
    elements = refl;
    root = refl;
    ids = λ id i h. h;
    in_range = λ n e h. h;
  }

  draw_content-Ends :
      (es : List Element) (i : ℕ) (step : Step E) (c : Children) (d : Document P)
      → StepEnds strict E quiet es i step
      → d.elements ≡ es
      → Behind strict i (length es) c
      → Ends strict (Keeps d) (draw_content E step c d)
  unfolding draw_content
  draw_content-Ends es i step Children.unset d s e h = h
  draw_content-Ends es i step (Children.text t) d s e h = Keeps-refl d
  draw_content-Ends es i step (Children.nodes is) d s e h =
      Ends-bind strict (Keeps d) (Keeps d) (draw_children E step is d) _
        (draw_children-Ends es i step is d s e h)
        λ d' k. Keeps-trans d d' (inval_page E d') k (inval_page-Keeps d')

  root-Ends :
      (o : Option ℕ) (n : ℕ)
      → Rooted strict n o
      → Ends strict (λ r. (o ≡ some r) × (r < n)) (or_undefined o)
  root-Ends none n h = h
  root-Ends (some r) n h = (refl, h)

  shown-Ends :
      (d shown : Document P)
      → Drawable strict E d.elements
      → Rooted strict (length d.elements) d.root
      → Keeps d shown
      → Ends strict (Keeps shown) (draw_shown E (suc (length d.elements)) shown)
  shown-Ends d shown h root k =
      let es = d.elements in
      let n : ℕ = length es in
      let rooted = subst (Rooted strict n) (sym k.root) root in
      Ends-bind strict (λ r. (shown.root ≡ some r) × (r < n)) (Keeps shown)
        (or_undefined shown.root) _ (root-Ends shown.root n rooted)
        λ r (e, lt).
          Ends-bind strict (λ y. get_elem? shown.elements r ≡ some y) (Keeps shown)
            (element_at r shown) _
            (element_at-Ends strict E quiet r shown (shorter strict E quiet r d shown k lt))
            λ y at.
              draw_content-Ends es r (parse_dom E (suc n)) y.children shown
                (λ c d'' e'' lo hi.
                  parse_dom-Ends strict E quiet es (suc n) c d'' h e'' hi (omega arith))
                k.elements
                (element-Behind strict E quiet es r y h
                  (subst (λ xs. get_elem? xs r ≡ some y) k.elements at))

  -- Drawing a page ends.
  pub draw_root-Ends :
      (d : Document P)
      → Drawable strict E d.elements
      → Rooted strict (length d.elements) d.root
      → Ends strict (Keeps d) (draw_root E d)
  unfolding draw_root
  draw_root-Ends d h root =
      let n : ℕ = length d.elements in
      Ends-bind strict (λ r. (d.root ≡ some r) × (r < n)) (Keeps d) (or_undefined d.root) _
        (root-Ends d.root n root)
        λ r (e, lt).
          Ends-bind strict (Kept strict E quiet d) (Keeps d) (dom_to_div E r d) _
            (dom_to_div-Ends strict E quiet r d h lt)
            λ (box, d') k.
              Ends-mono strict (Keeps (set_root E box d')) (Keeps d) _
                (λ x k'.
                  Keeps-trans d d' x k
                    (Keeps-trans d' (set_root E box d') x (set_root-Keeps box d') k'))
                (shown-Ends d (set_root E box d') h root
                  (Keeps-trans d d' (set_root E box d') k (set_root-Keeps box d')))
