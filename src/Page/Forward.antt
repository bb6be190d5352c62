-- ===== src/Page/Forward.antt =====
-- How the elements are laid out: the order of parents and children.
use cpp_custom.Prelude.{
  Bool, List, Option, [], ◌∷◌, ◌++◌, false, none, some, ℕ, zero, suc, ◌+◌, ◌≤◌, ◌<◌, ◌≡◌, refl,
  subst, some-injective, arith, length, get_elem?, set, length-append,
}
use cpp_custom.Html.Tree.{Dom, Node, Doms, cons, nil, dom}
use cpp_custom.Page.Types.{Children, Element}
use cpp_custom.Page.Store.{flatten, flatten_node, flatten_all, numbers, children_of}
use cpp_custom.Page.Outcome.{Fails}

abbrev pub Between : ℕ → ℕ → List ℕ → Type 0
Between i n [] = Unit {0}
Between i n (c ∷ cs) = ((i < c) × (c < n)) × Between i n cs

-- `strict` for elements whose children are all set.
abbrev pub Behind : Bool → ℕ → ℕ → Children → Type 0
Behind strict i n Children.unset = Fails strict
Behind strict i n (Children.text t) = Unit {0}
Behind strict i n (Children.nodes is) = Between i n is

-- The list holds the elements from number `i` on of `n`.
abbrev pub Forward : Bool → ℕ → ℕ → List Element → Type 0
Forward strict i n [] = Unit {0}
Forward strict i n (e ∷ es) = Behind strict i n e.children × Forward strict (suc i) n es

-- The root is that of an element; only where not `strict` it may be a null pointer.
abbrev pub Rooted : Bool → ℕ → Option ℕ → Type 0
Rooted strict n none = Fails strict
Rooted strict n (some r) = r < n

pub Forward-at :
    (strict : Bool) (k n : ℕ) (es : List Element) (i m : ℕ) (e : Element)
    → m ≡ k + i
    → Forward strict k n es
    → get_elem? es i ≡ some e
    → Behind strict m n e.children
Forward-at strict k n [] i m e q h g = ground arith
Forward-at strict k n (x ∷ es) zero m e q h g =
    let at : k ≡ m = omega arith in
    subst (λ j. Behind strict j n e.children) at
      (subst (λ y. Behind strict k n y.children) (some-injective x e g) h.0)
Forward-at strict k n (x ∷ es) (suc i) m e q h g =
    Forward-at strict (suc k) n es i m e (omega arith) h.1 g

Between-mono : (i n m : ℕ) (cs : List ℕ) → n ≤ m → Between i n cs → Between i m cs
Between-mono i n m [] le h = tt
Between-mono i n m (c ∷ cs) le h = ((h.0.0, omega (arith, h.0.1)), Between-mono i n m cs le h.1)

Between-below : (i j n : ℕ) (cs : List ℕ) → i ≤ j → Between j n cs → Between i n cs
Between-below i j n [] le h = tt
Between-below i j n (c ∷ cs) le h = ((omega (arith, h.0.0), h.0.1), Between-below i j n cs le h.1)

pub Behind-mono :
    (strict : Bool) (i n m : ℕ) (c : Children) → n ≤ m → Behind strict i n c → Behind strict i m c
Behind-mono strict i n m Children.unset le h = h
Behind-mono strict i n m (Children.text t) le h = tt
Behind-mono strict i n m (Children.nodes cs) le h = Between-mono i n m cs le h

pub Forward-mono :
    (strict : Bool) (i n m : ℕ) (es : List Element)
    → n ≤ m
    → Forward strict i n es
    → Forward strict i m es
Forward-mono strict i n m [] le h = tt
Forward-mono strict i n m (e ∷ es) le h =
    (Behind-mono strict i n m e.children le h.0, Forward-mono strict (suc i) n m es le h.1)

pub Forward-append :
    (strict : Bool) (i n k : ℕ) (xs ys : List Element)
    → k ≡ i + length xs
    → Forward strict i n xs
    → Forward strict k n ys
    → Forward strict i n (xs ++ ys)
Forward-append strict i n k [] ys q h g =
    let at : k ≡ i = omega arith in subst (λ j. Forward strict j n ys) at g
Forward-append strict i n k (x ∷ xs) ys q h g =
    (h.0, Forward-append strict (suc i) n k xs ys (omega arith) h.1 g)

pub Forward-set :
    (strict : Bool) (k n : ℕ) (es : List Element) (i m : ℕ) (e : Element)
    → m ≡ k + i
    → Behind strict m n e.children
    → Forward strict k n es
    → Forward strict k n (set es i e)
Forward-set strict k n [] i m e q b h = tt
Forward-set strict k n (x ∷ es) zero m e q b h =
    let at : m ≡ k = omega arith in (subst (λ j. Behind strict j n e.children) at b, h.1)
Forward-set strict k n (x ∷ es) (suc i) m e q b h =
    (h.0, Forward-set strict (suc k) n es i m e (omega arith) b h.1)

-- Trees are laid out from `n` on, so that all of them end below `m`.
pub flatten-pos : (n : ℕ) (d : Dom) → 0 < length (flatten n d)
unfolding flatten
flatten-pos n (dom name attrs inner children) = omega arith

numbers-Between :
    (i n m : ℕ) (ds : Doms) → i < n → n + length (flatten_all n ds) ≤ m → Between i m (numbers n ds)
unfolding numbers flatten_all
numbers-Between i n m nil lt le = tt
numbers-Between i n m (cons d ds) lt le =
    let k : ℕ = n + length (flatten n d) in
    let all = length-append (flatten n d) (flatten_all k ds) in
    (
      (lt, omega (arith, all, flatten-pos n d)),
      numbers-Between i k m ds (omega arith) (omega (arith, all)),
    )

pub children_of-Behind :
    (i n m : ℕ) (c : Node)
    → i < n
    → n + length (flatten_node n c) ≤ m
    → Behind false i m (children_of n c)
unfolding children_of flatten_node
children_of-Behind i n m Node.unset lt le = tt
children_of-Behind i n m (Node.text t) lt le = tt
children_of-Behind i n m (Node.nodes ds) lt le = numbers-Between i n m ds lt le

mutual
  unfolding flatten flatten_node flatten_all

  pub flatten-Forward :
      (n m : ℕ) (d : Dom) → n + length (flatten n d) ≤ m → Forward false n m (flatten n d)
  flatten-Forward n m (dom name attrs inner children) le = (
    children_of-Behind n (suc n) m children (omega arith) (omega arith),
    flatten_node-Forward (suc n) m children (omega arith),
  )

  pub flatten_node-Forward :
      (n m : ℕ) (c : Node)
      → n + length (flatten_node n c) ≤ m
      → Forward false n m (flatten_node n c)
  flatten_node-Forward n m Node.unset le = tt
  flatten_node-Forward n m (Node.text t) le = tt
  flatten_node-Forward n m (Node.nodes ds) le = flatten_all-Forward n m ds le

  flatten_all-Forward :
      (n m : ℕ) (ds : Doms)
      → n + length (flatten_all n ds) ≤ m
      → Forward false n m (flatten_all n ds)
  flatten_all-Forward n m nil le = tt
  flatten_all-Forward n m (cons d ds) le =
      let k : ℕ = n + length (flatten n d) in
      let all = length-append (flatten n d) (flatten_all k ds) in
      Forward-append false n m k (flatten n d) (flatten_all k ds) refl
        (flatten-Forward n m d (omega (arith, all)))
        (flatten_all-Forward k m ds (omega (arith, all)))
