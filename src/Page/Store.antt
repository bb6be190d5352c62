-- ===== src/Page/Store.antt =====
-- The attributes of an element, and the elements of a parsed tree with numbers in place of pointers.
use cpp_custom.Prelude.{
  Bytes, List, Option, [], ◌∷◌, ◌++◌, none, some, ℕ, suc, ◌+◌, if◌then◌else◌, equal, length,
}
use cpp_custom.Html.Tree.{Dom, Node, Doms, cons, nil, dom}
use cpp_custom.Page.Types.{Children, Element}

-- `attributes.find`; `idDomMap->find` is the same for numbers.
unfoldable pub find {ℓ} : {A : Type ℓ} → Bytes → List (Bytes × A) → Option A
find k [] = none
find k ((j, v) ∷ m) = if equal j k then some v else find k m

unfoldable pub erase {ℓ} : {A : Type ℓ} → Bytes → List (Bytes × A) → List (Bytes × A)
erase k [] = []
erase k ((j, v) ∷ m) = if equal j k then erase k m else (j, v) ∷ erase k m

-- `idDomMap->insert` keeps the number of an id that is there.
unfoldable pub insert_id : Bytes → ℕ → List (Bytes × ℕ) → List (Bytes × ℕ)
insert_id k i [] = (k, i) ∷ []
insert_id k i ((j, v) ∷ m) = if equal j k then (j, v) ∷ m else (j, v) ∷ insert_id k i m

-- The elements of a tree, the first of which gets number `n`; a child comes behind its parent.
unfoldable mutual
  pub flatten : ℕ → Dom → List Element
  flatten n (dom name attrs inner children) =
      record {
        name = name;
        attributes = attrs;
        inner_html = inner;
        children = children_of (suc n) children;
      }
      ∷ flatten_node (suc n) children

  pub flatten_node : ℕ → Node → List Element
  flatten_node n Node.unset = []
  flatten_node n (Node.text t) = []
  flatten_node n (Node.nodes ds) = flatten_all n ds

  pub flatten_all : ℕ → Doms → List Element
  flatten_all n nil = []
  flatten_all n (cons d ds) = flatten n d ++ flatten_all (n + length (flatten n d)) ds

  -- The numbers of trees one behind the other.
  pub numbers : ℕ → Doms → List ℕ
  numbers n nil = []
  numbers n (cons d ds) = n ∷ numbers (n + length (flatten n d)) ds

  pub children_of : ℕ → Node → Children
  children_of n Node.unset = Children.unset
  children_of n (Node.text t) = Children.text t
  children_of n (Node.nodes ds) = Children.nodes (numbers n ds)
