-- ===== src/Page/Keeps.antt =====
-- The relation between a page and the page after drawing.
use cpp_custom.Prelude.{
  Bytes, List, Option, [], ◌∷◌, none, some, suc, zero, ℕ, ◌<◌, ◌≡◌, refl, ap, ◌∙◌, inl, inr, arith,
  Bool-cases, equal, length, get_elem?,
}
use cpp_custom.Browser.Types.{Platform}
use cpp_custom.Page.Types.{Element, Document}
use cpp_custom.Page.Store.{find, insert_id}
use cpp_custom.Page.Draw.{register}

-- Every id is that of an element.
abbrev pub IdsIn : ℕ → List (Bytes × ℕ) → Type 0
IdsIn n [] = Unit {0}
IdsIn n ((id, i) ∷ m) = (i < n) × IdsIn n m

-- The elements and the root are the same, and no id is taken away.
pub record Keeps {P : Platform} (d d' : Document P) : Type 0 where
  pub elements : d'.elements ≡ d.elements
  pub root : d'.root ≡ d.root
  pub ids : (id : Bytes) (i : ℕ) → find id d.ids ≡ some i → find id d'.ids ≡ some i
  pub in_range : (n : ℕ) → length d.elements ≡ n → IdsIn n d.ids → IdsIn n d'.ids

module _ {P : Platform} where
  pub Keeps-refl : (d : Document P) → Keeps d d
  Keeps-refl d = record { elements = refl; root = refl; ids = λ id i h. h; in_range = λ n e h. h }

  pub Keeps-trans : (a b c : Document P) → Keeps a b → Keeps b c → Keeps a c
  Keeps-trans a b c h k = record {
    elements = k.elements ∙ h.elements;
    root = k.root ∙ h.root;
    ids = λ id i e. k.ids id i (h.ids id i e);
    in_range = λ n e l. k.in_range n (ap length h.elements ∙ e) (h.in_range n e l);
  }

find-insert_id :
    (key id : Bytes) (i j : ℕ) (m : List (Bytes × ℕ))
    → find id m ≡ some j
    → find id (insert_id key i m) ≡ some j
unfolding find insert_id
find-insert_id key id i j [] h = ground arith
find-insert_id key id i j ((k, v) ∷ m) h = ground (arith, find-insert_id key id i j m)

insert_id-IdsIn :
    (n : ℕ) (key : Bytes) (i : ℕ) (m : List (Bytes × ℕ))
    → i < n
    → IdsIn n m
    → IdsIn n (insert_id key i m)
unfolding insert_id
insert_id-IdsIn n key i [] lt h = (lt, tt)
insert_id-IdsIn n key i ((k, v) ∷ m) lt h = elim (Bool-cases (equal k key)) [
  | inl e ↦ rw e h
  | inr e ↦ rw e (h.0, insert_id-IdsIn n key i m lt h.1)
]

pub get_elem-lt {ℓ} :
    {A : Type ℓ} (xs : List A) (i : ℕ) (a : A) → get_elem? xs i ≡ some a → i < length xs
get_elem-lt [] i a h = ground arith
get_elem-lt (x ∷ xs) zero a h = omega arith
get_elem-lt (x ∷ xs) (suc i) a h = omega (arith, get_elem-lt xs i a h)

module _ {P : Platform} where
  pub register-Keeps :
      (e : Element) (i : ℕ) (d : Document P) (o : Option Bytes)
      → i < length d.elements
      → Keeps d (register e i d o)
  register-Keeps e i d none lt = Keeps-refl d
  register-Keeps e i d (some id) lt = record {
    elements = refl;
    root = refl;
    ids = λ id' j h. find-insert_id id id' i j d.ids h;
    in_range = λ n e h. insert_id-IdsIn n id i d.ids (omega arith) h;
  }
