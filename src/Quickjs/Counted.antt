-- ===== src/Quickjs/Counted.antt =====
-- The references of functions that timers hold, in every order of the steps of scripts and the loop.
use cpp_custom.Prelude.{
  Bool, List, Option, [], ◌∷◌, ◌++◌, true, false, none, some, ℕ, zero, suc, ◌+◌, ◌-◌, ◌≤◌, ◌<◌, ◌≡◌,
  refl, sym, ap, subst, some-injective, inl, inr, arith, ◌==◌, if◌then◌else◌, ==_iff, Bool-cases,
  length, get_elem?, set,
}
use cpp_custom.Quickjs.Timers.{
  Timer, State, Result, update, dup_value, with_refs, free_value, Arguments, js_set_timeout,
  js_clear_timeout, fire_at, finish, value, exception, undefined,
}

-- A step of the script, or of the loop: the script gets a reference or drops one, calls setTimeout
-- or clearTimeout; a timer fires, and the function of the timer that fired last returns.
pub data Action : Type 0 where
  keeps drops clears fires : ℕ → Action
  sets : Arguments → Action
  returns : Action

abbrev pub state_of : State → Result → Option State
state_of s (value v t) = some t
state_of s (exception t) = some t
state_of s undefined = none

-- `none` is `undefined`, or a step that the loop does not take.
unfoldable pub step : Action → State → Option State
step (keeps f) s = some (record (dup_value f s) { held = update s.held f (suc (s.held f)) })
step (drops f) s = free_value f (record s { held = update s.held f (s.held f - 1) })
step (clears i) s = state_of s (js_clear_timeout (some i) s)
step (fires i) s = fire_at i (get_elem? s.timers i) s
step (sets a) s = state_of s (js_set_timeout a s)
step returns s = finish s.running s

abbrev pub is_active : Option Timer → Bool
is_active none = false
is_active (some t) = t.active

abbrev pub is_null : List ℕ → Bool
is_null [] = true
is_null (i ∷ is) = false

-- The script drops only references that it has and clears only timers that are active; the first
-- allocation of setTimeout succeeds; and the loop fires active timers only.
abbrev pub Allowed : Action → State → Type 0
Allowed (keeps f) s = Unit {0}
Allowed (drops f) s = 0 < s.held f
Allowed (clears i) s = is_active (get_elem? s.timers i) ≡ true
Allowed (fires i) s = is_active (get_elem? s.timers i) ≡ true
Allowed (sets a) s = a.handle_allocated ≡ true
Allowed returns s = is_null s.running ≡ false

abbrev pub start_state : State
start_state = record { refs = λ f. 0; held = λ f. 0; timers = []; running = [] }

pub data Reach : State → Type 0 where
  begin : Reach start_state
  later : {s t : State} (a : Action) → Reach s → Allowed a s → step a s ≡ some t → Reach t

abbrev pub one : ℕ → ℕ → ℕ
one f g = if g == f then 1 else 0

-- The references that the timers have which are to fire.
abbrev pub active_for : ℕ → List Timer → ℕ
active_for f [] = 0
active_for f (t ∷ ts) = (if t.active then one f t.func else 0) + active_for f ts

abbrev pub func_at : List Timer → ℕ → Option ℕ
func_at [] i = none
func_at (t ∷ ts) zero = some t.func
func_at (t ∷ ts) (suc i) = func_at ts i

abbrev pub one_at : ℕ → Option ℕ → ℕ
one_at f none = 0
one_at f (some g) = one f g

-- The references of the timers whose function runs.
abbrev pub running_for : ℕ → List Timer → List ℕ → ℕ
running_for f ts [] = 0
running_for f ts (i ∷ is) = one_at f (func_at ts i) + running_for f ts is

abbrev pub AllBelow : ℕ → List ℕ → Type 0
AllBelow n [] = Unit {0}
AllBelow n (i ∷ is) = (i < n) × AllBelow n is

-- Every reference is one of the script, of a timer to fire or of one that runs.
pub record Counted (s : State) : Type 0 where
  pub refs :
      (f : ℕ) → s.refs f ≡ s.held f + active_for f s.timers + running_for f s.timers s.running
  pub known : AllBelow (length s.timers) s.running

module _ (f : ℕ) where
  pub active_for-append :
      (ts us : List Timer) → active_for f (ts ++ us) ≡ active_for f ts + active_for f us
  active_for-append [] us = omega arith
  active_for-append (t ∷ ts) us = omega (arith, active_for-append ts us)

  pub active_for-stop :
      (ts : List Timer) (i : ℕ) (t : Timer)
      → get_elem? ts i ≡ some t
      → t.active ≡ true
      → active_for f ts ≡ active_for f (set ts i (record t { active = false })) + one f t.func
  active_for-stop [] i t at on = ground arith
  active_for-stop (u ∷ us) zero t at on =
      let same = some-injective u t at in
      subst
        (λ v.
          (if v.active then one f v.func else 0) + active_for f us
          ≡ 0 + active_for f us + one f t.func)
        (sym same) (rw on (omega arith))
  active_for-stop (u ∷ us) (suc i) t at on = omega (arith, active_for-stop us i t at on)

func_at-stop :
    (ts : List Timer) (i j : ℕ) (t : Timer)
    → get_elem? ts i ≡ some t
    → func_at (set ts i (record t { active = false })) j ≡ func_at ts j
func_at-stop [] i j t at = refl
func_at-stop (u ∷ us) zero zero t at = ap (λ v. some v.func) (sym (some-injective u t at))
func_at-stop (u ∷ us) zero (suc j) t at = refl
func_at-stop (u ∷ us) (suc i) zero t at = refl
func_at-stop (u ∷ us) (suc i) (suc j) t at = func_at-stop us i j t at

pub running_for-stop :
    (f : ℕ) (ts : List Timer) (i : ℕ) (t : Timer) (is : List ℕ)
    → get_elem? ts i ≡ some t
    → running_for f (set ts i (record t { active = false })) is ≡ running_for f ts is
running_for-stop f ts i t [] at = refl
running_for-stop f ts i t (j ∷ is) at =
    omega (arith, ap (one_at f) (func_at-stop ts i j t at), running_for-stop f ts i t is at)

func_at-append : (ts us : List Timer) (i : ℕ) → i < length ts → func_at (ts ++ us) i ≡ func_at ts i
func_at-append [] us i h = absurd (omega arith)
func_at-append (t ∷ ts) us zero h = refl
func_at-append (t ∷ ts) us (suc i) h = func_at-append ts us i (omega arith)

pub running_for-append :
    (f : ℕ) (ts us : List Timer) (is : List ℕ)
    → AllBelow (length ts) is
    → running_for f (ts ++ us) is ≡ running_for f ts is
running_for-append f ts us [] h = refl
running_for-append f ts us (i ∷ is) h =
    omega (arith, ap (one_at f) (func_at-append ts us i h.0), running_for-append f ts us is h.1)

pub AllBelow-grow : (m n : ℕ) (is : List ℕ) → m ≤ n → AllBelow m is → AllBelow n is
AllBelow-grow m n [] le h = tt
AllBelow-grow m n (i ∷ is) le h = (omega (arith, h.0), AllBelow-grow m n is le h.1)

pub func_at-get :
    (ts : List Timer) (i : ℕ) (t : Timer)
    → get_elem? ts i ≡ some t
    → (func_at ts i ≡ some t.func) × (i < length ts)
func_at-get [] i t at = ground arith
func_at-get (u ∷ us) zero t at = (ap (λ v. some v.func) (some-injective u t at), omega arith)
func_at-get (u ∷ us) (suc i) t at =
    let (same, below) = func_at-get us i t at in (same, omega (arith, below))

pub get-below : (ts : List Timer) (i : ℕ) → i < length ts → (t : Timer) × (get_elem? ts i ≡ some t)
get-below [] i h = absurd (omega arith)
get-below (t ∷ ts) zero h = (t, refl)
get-below (t ∷ ts) (suc i) h = get-below ts i (omega arith)

abbrev pub freed : ℕ → State → State
freed f s = record s { refs = update s.refs f (s.refs f - 1) }

with_refs-freed :
    (f n : ℕ) (s : State)
    → 0 < n
    → with_refs f n s ≡ some (record s { refs = update s.refs f (n - 1) })
with_refs-freed f zero s h = absurd (omega arith)
with_refs-freed f (suc n) s h = ap (λ k. some (record s { refs = update s.refs f k })) (omega arith)

pub free_value-freed : (f : ℕ) (s : State) → 0 < s.refs f → free_value f s ≡ some (freed f s)
unfolding free_value
free_value-freed f s h = with_refs-freed f (s.refs f) s h

pub one-same : (g f : ℕ) → g ≡ f → one g f ≡ 1
one-same g f e = ground arith

one-other : (g f : ℕ) → (g == f) ≡ false → one g f ≡ 0
one-other g f e = ground arith

-- A count after one more reference, and after one less.
pub update-more : (r : ℕ → ℕ) (f g : ℕ) → update r f (suc (r f)) g ≡ r g + one g f
update-more r f g = elim (Bool-cases (g == f)) [
  | inl same ↦ let eq = (==_iff g f).0 same in rw same (omega (arith, ap r eq, one-same g f eq))
  | inr other ↦ rw other (omega (arith, one-other g f other))
]

pub update-less : (r : ℕ → ℕ) (f g : ℕ) → 0 < r f → update r f (r f - 1) g + one g f ≡ r g
update-less r f g h = elim (Bool-cases (g == f)) [
  | inl same ↦ let eq = (==_iff g f).0 same in rw same (omega (arith, h, ap r eq, one-same g f eq))
  | inr other ↦ rw other (omega (arith, one-other g f other))
]
