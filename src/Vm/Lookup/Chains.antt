-- ===== src/Vm/Lookup/Chains.antt =====
-- The symbols that are reached from a scope. Each `next` and each `parent` was made before the
-- object that points to it, so its number is smaller.
use cpp_custom.Prelude.{
  Bool, List, Option, [], arith, false, if◌then◌else◌, length, none, refl, some, ℕ, ◌++◌, ◌<◌, ◌==◌,
  ◌∷◌, ◌≡◌, ◌≤◌,
}
use cpp_custom.Vm.Types.{Scope, Symbol}

-- From `sym` the `next` pointers lead through the symbols `xs`, all numbered below `n`.
pub data Chain (symbols : ℕ → Option Symbol) : ℕ → Option ℕ → List ℕ → Type 0 where
  end_of : {n : ℕ} → Chain symbols n none []
  link :
      {n i : ℕ} {s : Symbol} {xs : List ℕ}
      → i < n
      → symbols i ≡ some s
      → Chain symbols i s.next xs
      → Chain symbols n (some i) (i ∷ xs)

-- From `scope` outwards the scopes hold the symbols `zs`, the innermost first; symbols are
-- numbered below `b`, scopes below `n`.
pub data Nest (symbols : ℕ → Option Symbol) (scopes : ℕ → Option Scope) (b : ℕ)
    : ℕ → Option ℕ → List ℕ → Type 0 where
  outermost : {n : ℕ} → Nest symbols scopes b n none []
  inside :
      {n i : ℕ} {sc : Scope} {xs ys zs : List ℕ}
      → i < n
      → scopes i ≡ some sc
      → Chain symbols b sc.list xs
      → Nest symbols scopes b i sc.parent ys
      → zs ≡ xs ++ ys
      → Nest symbols scopes b n (some i) zs

abbrev pub key_is : Option Symbol → ℕ → Bool
key_is none key = false
key_is (some s) key = s.key == key

-- The first symbol of the list with the key.
unfoldable pub first : (ℕ → Option Symbol) → ℕ → List ℕ → Option ℕ
first symbols key [] = none
first symbols key (x ∷ xs) = if key_is (symbols x) key then some x else first symbols key xs

-- The first answer, or the second if there is none.
abbrev pub or_second : Option ℕ → Option ℕ → Option ℕ
or_second none o = o
or_second (some x) o = some x

pub first-append :
    (symbols : ℕ → Option Symbol) (key : ℕ) (xs ys : List ℕ)
    → first symbols key (xs ++ ys) ≡ or_second (first symbols key xs) (first symbols key ys)
unfolding first
first-append symbols key [] ys = refl
first-append symbols key (x ∷ xs) ys = ground (arith, first-append symbols key xs ys)

pub Chain-length :
    {symbols : ℕ → Option Symbol} {n : ℕ} {o : Option ℕ} {xs : List ℕ}
    → Chain symbols n o xs
    → length xs ≤ n
Chain-length end_of = omega arith
Chain-length (link lt e c) = omega (arith, Chain-length c)

pub Chain-mono :
    {symbols : ℕ → Option Symbol} {n : ℕ} (k : ℕ) {o : Option ℕ} {xs : List ℕ}
    → n ≤ k
    → Chain symbols n o xs
    → Chain symbols k o xs
Chain-mono k le end_of = end_of
Chain-mono k le (link {s} h e c) = link {s = s} (omega arith) e c

pub Nest-mono :
    {symbols : ℕ → Option Symbol} {scopes : ℕ → Option Scope} {b n : ℕ} (b' k : ℕ) {o : Option ℕ}
    {zs : List ℕ}
    → b ≤ b'
    → n ≤ k
    → Nest symbols scopes b n o zs
    → Nest symbols scopes b' k o zs
Nest-mono b' k le le' outermost = outermost
Nest-mono b' k le le' (inside {i} {sc} h e c rest z) =
    inside {sc = sc} (omega arith) e (Chain-mono b' le c) (Nest-mono b' i le (omega arith) rest) z
