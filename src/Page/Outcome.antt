-- ===== src/Page/Outcome.antt =====
-- Properties of what a call does.
use cpp_custom.Prelude.{Bool, true, false, ◌≡◌, refl, subst, if◌then◌else◌}
use cpp_custom.Page.Types.{Outcome, ◌>>=◌, done, undefined, diverges, thrown, out_of_fuel}

-- Where `strict`, a call may not fail.
abbrev pub Fails : Bool → Type 0
Fails true = ⊥
Fails false = Unit

-- The call ends, and what it returns has a property.
abbrev pub Ends {ℓ} : {A : Type ℓ} → Bool → (A → Type 0) → Outcome A → Type 0
Ends strict Q (done a) = Q a
Ends strict Q undefined = Fails strict
Ends strict Q diverges = Fails strict
Ends strict Q thrown = Fails strict
Ends strict Q out_of_fuel = ⊥

pub Ends-bind {ℓ κ} :
    {A : Type ℓ} {B : Type κ} (strict : Bool) (Mid : A → Type 0) (Last : B → Type 0) (x : Outcome A)
    (k : A → Outcome B)
    → Ends strict Mid x
    → ((a : A) → Mid a → Ends strict Last (k a))
    → Ends strict Last (x >>= k)
Ends-bind strict Mid Last (done a) k h rest = rest a h
Ends-bind strict Mid Last undefined k h rest = h
Ends-bind strict Mid Last diverges k h rest = h
Ends-bind strict Mid Last thrown k h rest = h
Ends-bind strict Mid Last out_of_fuel k h rest = h

pub Ends-mono {ℓ} :
    {A : Type ℓ} (strict : Bool) (Q R : A → Type 0) (x : Outcome A)
    → ((a : A) → Q a → R a)
    → Ends strict Q x
    → Ends strict R x
Ends-mono strict Q R (done a) k h = k a h
Ends-mono strict Q R undefined k h = h
Ends-mono strict Q R diverges k h = h
Ends-mono strict Q R thrown k h = h
Ends-mono strict Q R out_of_fuel k h = h

pub Ends-test {ℓ} :
    {A : Type ℓ} (strict : Bool) (Q : A → Type 0) (x y : Outcome A) (b : Bool)
    → (b ≡ true → Ends strict Q x)
    → (b ≡ false → Ends strict Q y)
    → Ends strict Q (elim b [ true ↦ x | false ↦ y ])
Ends-test strict Q x y true h k = h refl
Ends-test strict Q x y false h k = k refl

pub Ends-apply {ℓ} :
    {A : Type ℓ} (strict : Bool) (Q : A → Type 0) (x : Outcome A) (a : A)
    → x ≡ done a
    → Ends strict Q x
    → Q a
Ends-apply strict Q x a e h = subst (Ends strict Q) e h

pub either {ℓ} :
    {A : Type ℓ} (Q : A → Type 0) (b : Bool) (x y : A) → Q x → Q y → Q (if b then x else y)
either Q true x y p q = p
either Q false x y p q = q
