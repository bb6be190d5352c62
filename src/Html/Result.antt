-- ===== src/Html/Result.antt =====
-- Results of the parser.
use cpp_custom.Prelude.{Bool, false, refl, true, ◌≡◌}

-- `diverges` is the loop of gettok that never ends, `thrown` the exception of `std::string`.
pub data Result {ℓ} (A : Type ℓ) : Type ℓ where
  ok : A → Result A
  diverges : Result A
  thrown : Result A
  out_of_fuel : Result A

infixl 5 ◌>>=◌ ◌>>◌
abbrev pub ◌>>=◌ {ℓ κ} : {A : Type ℓ} {B : Type κ} → Result A → (A → Result B) → Result B
ok a >>= f = f a
diverges >>= f = diverges
thrown >>= f = thrown
out_of_fuel >>= f = out_of_fuel

abbrev pub ◌>>◌ {ℓ κ} : {A : Type ℓ} {B : Type κ} → Result A → Result B → Result B
m >> k = m >>= λ _. k

-- A result that is not for want of fuel, with a property of what is returned.
abbrev pub Fine {ℓ} : {A : Type ℓ} → (A → Type 0) → Result A → Type 0
Fine P (ok a) = P a
Fine P diverges = Unit
Fine P thrown = Unit
Fine P out_of_fuel = ⊥

pub Fine-bind {ℓ κ} :
    {A : Type ℓ} {B : Type κ} (Mid : A → Type 0) (End : B → Type 0) (x : Result A)
    (k : A → Result B)
    → Fine Mid x
    → ((a : A) → Mid a → Fine End (k a))
    → Fine End (x >>= k)
Fine-bind Mid End (ok a) k h rest = rest a h
Fine-bind Mid End diverges k h rest = tt
Fine-bind Mid End thrown k h rest = tt
Fine-bind Mid End out_of_fuel k h rest = h

pub Fine-mono {ℓ} :
    {A : Type ℓ} (P Q : A → Type 0) (r : Result A) → ((a : A) → P a → Q a) → Fine P r → Fine Q r
Fine-mono P Q (ok a) k h = k a h
Fine-mono P Q diverges k h = tt
Fine-mono P Q thrown k h = tt
Fine-mono P Q out_of_fuel k h = h

-- A test of the code.
pub Fine-test {ℓ} :
    {A : Type ℓ} (P : A → Type 0) (x y : Result A) (b : Bool)
    → (b ≡ true → Fine P x)
    → (b ≡ false → Fine P y)
    → Fine P (elim b [ true ↦ x | false ↦ y ])
Fine-test P x y true h k = h refl
Fine-test P x y false h k = k refl
