-- ===== src/Page/Valid.antt =====
-- setAttribute, setInnerHtml and loadUri: how they lay out the elements.
use cpp_custom.Prelude.{
  Bytes, List, Option, [], ◌∷◌, ◌++◌, false, none, some, ℕ, ◌+◌, ◌≤◌, ◌<◌, ◌≡◌, refl, sym, ap,
  subst, arith, length, get_elem?, set, length-append, length-set,
}
use cpp_custom.Html.Tree.{Dom, Node, dom}
use cpp_custom.Browser.Types.{Platform}
use cpp_custom.Page.Types.{Element, Document, Engine}
use cpp_custom.Page.Store.{flatten, children_of}
use cpp_custom.Page.Script.{written, new_elements, put_element, store_content}
use cpp_custom.Page.Load.{add_tree}
use cpp_custom.Page.Keeps.{IdsIn, Keeps, get_elem-lt}
use cpp_custom.Page.Forward.{
  Behind, Forward, Rooted, Forward-at, Behind-mono, Forward-mono, Forward-append, Forward-set,
  flatten-pos, children_of-Behind, flatten-Forward, flatten_node-Forward,
}

-- Every child comes behind its parent, and the root and the ids are those of elements.
pub record Valid {P : Platform} (d : Document P) : Type 0 where
  pub forward : Forward false 0 (length d.elements) d.elements
  pub rooted : Rooted false (length d.elements) d.root
  pub ids : IdsIn (length d.elements) d.ids

module _ {P : Platform} where
  pub Keeps-Valid : (d d' : Document P) → Keeps d d' → Valid d → Valid d'
  Keeps-Valid d d' k v =
      let n : ℕ = length d.elements in
      let same : n ≡ length d'.elements = ap length (sym k.elements) in
      record {
        forward = subst (λ es. Forward false 0 (length es) es) (sym k.elements) v.forward;
        rooted =
            subst (λ m. Rooted false m d'.root) same (subst (Rooted false n) (sym k.root) v.rooted);
        ids = subst (λ m. IdsIn m d'.ids) same (k.in_range n refl v.ids);
      }

IdsIn-mono : (n m : ℕ) (ids : List (Bytes × ℕ)) → n ≤ m → IdsIn n ids → IdsIn m ids
IdsIn-mono n m [] le h = tt
IdsIn-mono n m ((id, i) ∷ ids) le h = (omega (arith, h.0), IdsIn-mono n m ids le h.1)

Rooted-mono : (n m : ℕ) (o : Option ℕ) → n ≤ m → Rooted false n o → Rooted false m o
Rooted-mono n m none le h = tt
Rooted-mono n m (some r) le h = omega arith

new_elements-Forward :
    (n m : ℕ) (t : Dom) → n + length (new_elements n t) ≤ m → Forward false n m (new_elements n t)
new_elements-Forward n m (dom name attrs inner children) le = flatten_node-Forward n m children le

written-Behind :
    (i n m : ℕ) (e : Element) (t : Dom)
    → i < n
    → n + length (new_elements n t) ≤ m
    → Behind false i n e.children
    → Behind false i m (written n e t).children
unfolding children_of
written-Behind i n m e (dom name attrs inner Node.unset) lt le h =
    Behind-mono false i n m e.children (omega arith) h
written-Behind i n m e (dom name attrs inner (Node.text t)) lt le h = tt
written-Behind i n m e (dom name attrs inner (Node.nodes ds)) lt le h =
    children_of-Behind i n m (Node.nodes ds) lt le

module _ {P : Platform} where
  pub put_element-Valid :
      (i : ℕ) (e e' : Element) (d : Document P)
      → Valid d
      → get_elem? d.elements i ≡ some e
      → e'.children ≡ e.children
      → Valid (put_element i e' d)
  put_element-Valid i e e' d v at same =
      let n : ℕ = length d.elements in
      let kept = sym (length-set d.elements i e') in
      let behind = Forward-at false 0 n d.elements i i e (omega arith) v.forward at in
      record {
        forward =
            subst (λ m. Forward false 0 m (set d.elements i e')) kept
              (Forward-set false 0 n d.elements i i e' (omega arith)
                (subst (Behind false i n) (sym same) behind) v.forward);
        rooted = subst (λ m. Rooted false m d.root) kept v.rooted;
        ids = subst (λ m. IdsIn m d.ids) kept v.ids;
      }

  pub store_content-Valid :
      (i : ℕ) (e : Element) (d : Document P) (t : Dom)
      → Valid d
      → get_elem? d.elements i ≡ some e
      → Valid (store_content i e d t)
  store_content-Valid i e d t v at =
      let n : ℕ = length d.elements in
      let e' = written n e t in
      let more = new_elements n t in
      let m : ℕ = length (set d.elements i e' ++ more) in
      let sizes = length-append (set d.elements i e') more in
      let kept = length-set d.elements i e' in
      let behind =
        written-Behind i n m e t (get_elem-lt d.elements i e at) (omega (arith, sizes, kept))
          (Forward-at false 0 n d.elements i i e (omega arith) v.forward at) in
      record {
        forward =
            Forward-append false 0 m n (set d.elements i e') more (omega (arith, kept))
              (Forward-set false 0 m d.elements i i e' (omega arith) behind
                (Forward-mono false 0 n m d.elements (omega (arith, sizes, kept)) v.forward))
              (new_elements-Forward n m t (omega (arith, sizes, kept)));
        rooted = Rooted-mono n m d.root (omega (arith, sizes, kept)) v.rooted;
        ids = IdsIn-mono n m d.ids (omega (arith, sizes, kept)) v.ids;
      }

module _ {P : Platform} (E : Engine P) where
  pub add_tree-Valid : (d : Document P) (o : Option Dom) → Valid d → Valid (add_tree E d o)
  add_tree-Valid d none v = record { forward = v.forward; rooted = tt; ids = v.ids }
  add_tree-Valid d (some t) v =
      let n : ℕ = length d.elements in
      let more = flatten n t in
      let m : ℕ = length (d.elements ++ more) in
      let sizes = length-append d.elements more in
      record {
        forward =
            Forward-append false 0 m n d.elements more (omega arith)
              (Forward-mono false 0 n m d.elements (omega (arith, sizes)) v.forward)
              (flatten-Forward n m t (omega (arith, sizes)));
        rooted = omega (arith, sizes, flatten-pos n t);
        ids = IdsIn-mono n m d.ids (omega (arith, sizes)) v.ids;
      }
