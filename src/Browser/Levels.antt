-- ===== src/Browser/Levels.antt =====
-- The loop of onFindClickHandler goes through the divs level by level.
use native.Mathlib.Nat.{zero-add, suc-add}
use cpp_custom.Prelude.{
  List, Option, [], ◌∷◌, ◌++◌, none, some, ℕ, zero, suc, ◌+◌, ◌-◌, ◌≤◌, ◌<◌, ◌≡◌, refl, sym, ap,
  ◌∙◌, arith, if◌then◌else◌, length, length-append,
}
use cpp_custom.Browser.Types.{Platform, Point, Box, Div, Divs, div, nil, cons}
use cpp_custom.Browser.Mouse.{
  is_outer, push_back, visit, find_loop, count_all, start_divs, find_div,
}

module _ (P : Platform) where
  -- The boxes of some divs, and all the children of these.
  abbrev boxes : Divs P → List (Box P)
  boxes nil = []
  boxes (cons (div b cs) ds) = b ∷ boxes ds

  abbrev all_children : Divs P → Divs P
  all_children nil = nil
  all_children (cons (div b cs) ds) = push_back P cs (all_children ds)

  -- The boxes of the first `h` levels, one level after the other.
  unfoldable pub level_order : ℕ → Divs P → List (Box P)
  level_order zero ds = []
  level_order (suc h) ds = boxes ds ++ level_order h (all_children ds)

  -- The last box of a list that the point is in, or else the one given.
  unfoldable pub last_hit : Point P → List (Box P) → Option (Box P) → Option (Box P)
  last_hit p [] found = found
  last_hit p (b ∷ bs) found = last_hit p bs (if is_outer P p b then found else some b)

  push_back-nil : (ds : Divs P) → push_back P ds nil ≡ ds
  push_back-nil nil = refl
  push_back-nil (cons d ds) = ap (λ t. cons d t) (push_back-nil ds)

  push_back_assoc :
      (ds es fs : Divs P) → push_back P (push_back P ds es) fs ≡ push_back P ds (push_back P es fs)
  push_back_assoc nil es fs = refl
  push_back_assoc (cons d ds) es fs = ap (λ t. cons d t) (push_back_assoc ds es fs)

  count-push_back :
      (ds es : Divs P) → count_all P (push_back P ds es) ≡ count_all P ds + count_all P es
  unfolding count_all
  count-push_back nil es = omega arith
  count-push_back (cons d ds) es = omega (arith, count-push_back ds es)

  count-level : (ds : Divs P) → count_all P ds ≡ length (boxes ds) + count_all P (all_children ds)
  unfolding count_all
  count-level nil = refl
  count-level (cons (div b cs) ds) =
      omega (arith, count-level ds, count-push_back cs (all_children ds))

  level_order-nil : (h : ℕ) → level_order h nil ≡ []
  unfolding level_order
  level_order-nil zero = refl
  level_order-nil (suc h) = level_order-nil h

  pub length-level_order :
      (h : ℕ) (ds : Divs P) → count_all P ds ≤ h → length (level_order h ds) ≡ count_all P ds
  unfolding level_order count_all
  length-level_order h nil le = ap length (level_order-nil h)
  length-level_order zero (cons (div b cs) ds) le = absurd (omega arith)
  length-level_order (suc h) (cons (div b cs) ds) le =
      let all : Divs P = cons (div b cs) ds in
      let sizes = count-level all in
      omega (
        arith,
        le,
        sizes,
        length-append (boxes all) (level_order h (all_children all)),
        length-level_order h (all_children all) (omega (arith, le, sizes)),
      )

-- A loop that goes through divs, appends the children of each, and updates a state by its box.
module _ (P : Platform) (S : Type 0) (step : Box P → S → S) where
  unfoldable pub walk : ℕ → Divs P → S → Option S
  walk zero ds s = none
  walk (suc f) nil s = some s
  walk (suc f) (cons (div b cs) ds) s = walk f (push_back P ds cs) (step b s)

  abbrev pub after_boxes : List (Box P) → S → S
  after_boxes [] s = s
  after_boxes (b ∷ bs) s = after_boxes bs (step b s)

  after_boxes-append :
      (xs ys : List (Box P)) (s : S) → after_boxes (xs ++ ys) s ≡ after_boxes ys (after_boxes xs s)
  after_boxes-append [] ys s = refl
  after_boxes-append (x ∷ xs) ys s = after_boxes-append xs ys (step x s)

  -- The loop over one level, with the divs `es` behind it.
  walk-level :
      (f : ℕ) (ds es : Divs P) (s : S)
      → walk (length (boxes P ds) + f) (push_back P ds es) s
        ≡ walk f (push_back P es (all_children P ds)) (after_boxes (boxes P ds) s)
  unfolding walk
  walk-level f nil es s = rw (zero-add, push_back-nil P es) refl
  walk-level f (cons (div b cs) ds) es s =
      let n : ℕ = length (boxes P ds) in
      let queue : Divs P = cons (div b cs) (push_back P ds es) in
      ap (λ k. walk k queue s) (suc-add n f)
      ∙ ap (λ t. walk (n + f) t (step b s)) (push_back_assoc P ds es cs)
      ∙ walk-level f ds (push_back P es cs) (step b s)
      ∙ ap (λ t. walk f t (after_boxes (boxes P ds) (step b s)))
          (push_back_assoc P es cs (all_children P ds))

  -- With more fuel than divs, the loop ends, behind all boxes in level order.
  pub walk-levels :
      (h f : ℕ) (ds : Divs P) (s : S)
      → count_all P ds ≤ h
      → count_all P ds < f
      → walk f ds s ≡ some (after_boxes (level_order P h ds) s)
  unfolding walk level_order count_all
  walk-levels h zero nil s le lt = absurd (omega arith)
  walk-levels h (suc f) nil s le lt = rw (level_order-nil P h) refl
  walk-levels zero f (cons (div b cs) ds) s le lt = absurd (omega arith)
  walk-levels (suc h) f (cons (div b cs) ds) s le lt =
      let all : Divs P = cons (div b cs) ds in
      let n : ℕ = length (boxes P all) in
      let sizes = count-level P all in
      let fuel : f ≡ n + (f - n) = omega (arith, sizes) in
      let here : walk (n + (f - n)) all s
          ≡ walk (f - n) (all_children P all) (after_boxes (boxes P all) s) =
        rw (← push_back-nil P all) (walk-level (f - n) all nil s) in
      let below =
        walk-levels h (f - n) (all_children P all) (after_boxes (boxes P all) s)
          (omega (arith, sizes)) (omega (arith, sizes)) in
      ap (λ k. walk k all s) fuel
      ∙ here
      ∙ below
      ∙ ap some (sym (after_boxes-append (boxes P all) (level_order P h (all_children P all)) s))

module _ (P : Platform) where
  find_loop-walk :
      (f : ℕ) (p : Point P) (ds : Divs P) (found : Option (Box P))
      → find_loop P f p ds found ≡ walk P (Option (Box P)) (visit P p) f ds found
  unfolding find_loop walk
  find_loop-walk zero p ds found = refl
  find_loop-walk (suc f) p nil found = refl
  find_loop-walk (suc f) p (cons (div b cs) ds) found = find_loop-walk f p _ _

  last_hit-after_boxes :
      (p : Point P) (bs : List (Box P)) (found : Option (Box P))
      → after_boxes P (Option (Box P)) (visit P p) bs found ≡ last_hit P p bs found
  unfolding last_hit
  last_hit-after_boxes p [] found = refl
  last_hit-after_boxes p (b ∷ bs) found = last_hit-after_boxes p bs _

  -- The search of onFindClickHandler ends, and what it finds is the last div in level order that
  -- the point is in, or none where there is no such div.
  pub find_div-levels :
      (p : Point P) (root : Option (Div P))
      → find_div P p root
        ≡ some (
            last_hit P p (level_order P (count_all P (start_divs P root)) (start_divs P root)) none)
  unfolding find_div
  find_div-levels p root =
      let divs : Divs P = start_divs P root in
      let n : ℕ = count_all P divs in
      find_loop-walk (suc n) p divs none
      ∙ walk-levels P (Option (Box P)) (visit P p) n (suc n) divs none (omega arith) (omega arith)
      ∙ ap some (last_hit-after_boxes p (level_order P n divs) none)
