-- ===== src/Vm/Lookup/Shadow.antt =====
-- pushSymbol makes the new symbol the first of its scope.
use cpp_custom.Prelude.{
  List, Option, ap, arith, if◌then◌else◌, refl, some, sym, ℕ, ◌++◌, ◌<◌, ◌==◌, ◌∙◌, ◌∷◌, ◌≡◌, ◌≤◌,
}
use cpp_custom.Vm.Lookup.Chains.{
  Chain, Nest, Nest-mono, end_of, first, first-append, inside, link, or_second, outermost,
}
use cpp_custom.Vm.Lookup.Find.{find_symbol-first}
use cpp_custom.Vm.Resolve.{find_symbol}
use cpp_custom.Vm.Stack.{push_symbol}
use cpp_custom.Vm.State.{Machine, done, opened, update}
use cpp_custom.Vm.Types.{Scope, Symbol}

-- Writing a symbol with a number that no chain reaches changes none of them.
Chain-update :
    {symbols : ℕ → Option Symbol} (new : ℕ) (s : Symbol) {n : ℕ} {o : Option ℕ} {xs : List ℕ}
    → n ≤ new
    → Chain symbols n o xs
    → Chain (update symbols new (some s)) n o xs
Chain-update new s le end_of = end_of
Chain-update new s le (link {s = t} h e c) =
    link {s = t} h (ground arith) (Chain-update new s (omega arith) c)

Nest-update :
    {symbols : ℕ → Option Symbol} {scopes : ℕ → Option Scope} (new : ℕ) (s : Symbol) (scope : ℕ)
    (sc : Scope) {n : ℕ} {o : Option ℕ} {zs : List ℕ}
    → n ≤ scope
    → Nest symbols scopes new n o zs
    → Nest (update symbols new (some s)) (update scopes scope (some sc)) new n o zs
Nest-update new s scope sc le outermost = outermost
Nest-update new s scope sc le (inside {sc = t} h e c rest z) =
    inside {sc = t} h (ground arith) (Chain-update new s (omega arith) c)
      (Nest-update new s scope sc (omega arith) rest) z

-- The scope after the push.
pushed_scope :
    (m : Machine) (new : ℕ) (s : Symbol) (scope : ℕ) (sc : Scope) {xs ys : List ℕ}
    → new < m.next
    → scope < m.next
    → m.scopes scope ≡ some sc
    → Chain m.symbols new sc.list xs
    → Nest m.symbols m.scopes new scope sc.parent ys
    → Nest
        (update m.symbols new (some (record s { next = sc.list })))
        (update m.scopes scope (some (record sc { list = some new })))
        m.next
        m.next
        (some scope)
        (new ∷ (xs ++ ys))
pushed_scope m new s scope sc {xs} {ys} lt lt' e c rest =
    let s' : Symbol = record s { next = sc.list } in
    let sc' : Scope = record sc { list = some new } in
    inside {sc = sc'} lt' (ground arith)
      (link {s = s'} lt (ground arith) (Chain-update new s' (omega arith) c))
      (Nest-mono m.next scope (omega arith) (omega arith)
        (Nest-update new s' scope sc' (omega arith) rest))
      refl

first-update-Chain :
    {symbols : ℕ → Option Symbol} (new : ℕ) (s : Symbol) (key : ℕ) {n : ℕ} {o : Option ℕ}
    {xs : List ℕ}
    → n ≤ new
    → Chain symbols n o xs
    → first (update symbols new (some s)) key xs ≡ first symbols key xs
unfolding first
first-update-Chain new s key le end_of = refl
first-update-Chain {symbols} new s key le (link {i} {s = t} {xs} h e c) =
    ground (arith, first-update-Chain new s key (omega arith) c)

first-update :
    {symbols : ℕ → Option Symbol} {scopes : ℕ → Option Scope} (new : ℕ) (s : Symbol) (key : ℕ)
    {n : ℕ} {o : Option ℕ} {zs : List ℕ}
    → Nest symbols scopes new n o zs
    → first (update symbols new (some s)) key zs ≡ first symbols key zs
unfolding first
first-update new s key outermost = refl
first-update {symbols} new s key (inside {xs} {ys} h e c rest z) =
    let symbols' : ℕ → Option Symbol = update symbols new (some s) in
    rw z (
      first-append symbols' key xs ys
      ∙ ap (λ o. or_second o (first symbols' key ys)) (first-update-Chain new s key (omega arith) c)
      ∙ ap (or_second (first symbols key xs)) (first-update new s key rest)
      ∙ sym (first-append symbols key xs ys))

first-pushed :
    {symbols : ℕ → Option Symbol} {scopes : ℕ → Option Scope} (new : ℕ) (s : Symbol) (k key : ℕ)
    {n : ℕ} {q : Option ℕ} {zs : List ℕ}
    → Nest symbols scopes new n q zs
    → s.key ≡ k
    → (o : Option ℕ) → o ≡ first symbols key zs
    → first (update symbols new (some s)) key (new ∷ zs) ≡ (if k == key then some new else o)
unfolding first
first-pushed new s k key h e o eq = ground (arith, first-update new s key h)

-- pushSymbol of a new symbol onto a well-formed scope succeeds, and afterwards findSymbol from
-- that scope returns the new symbol for its own key, whatever symbols of that key there were, and
-- for every other key what it returned before.
pub push_symbol-find :
    (m : Machine) (new : ℕ) (s : Symbol) (scope : ℕ) (sc : Scope) (xs ys : List ℕ)
    → new < m.next
    → scope < m.next
    → m.symbols new ≡ some s
    → m.scopes scope ≡ some sc
    → Chain m.symbols new sc.list xs
    → Nest m.symbols m.scopes new scope sc.parent ys
    → (m' : Machine) × (push_symbol new scope m ≡ done tt m')
      × ((key : ℕ) (o : Option ℕ)
          → find_symbol (some scope) key m ≡ done o m
          → find_symbol (some scope) key m' ≡ done (if s.key == key then some new else o) m')
unfolding push_symbol opened
push_symbol-find m new s scope sc xs ys lt lt' e e' c rest =
    let s' : Symbol = record s { next = sc.list } in
    let sc' : Scope = record sc { list = some new } in
    let m' : Machine = record m {
      symbols = update m.symbols new (some s');
      scopes = update m.scopes scope (some sc');
    } in
    let inner : Nest m.symbols m.scopes new m.next (some scope) (xs ++ ys) =
      inside {sc = sc} lt' e' c rest refl in
    (
      m',
      ground arith,
      λ key o h.
          let earlier : done o m ≡ done (first m.symbols key (xs ++ ys)) m =
            sym h
            ∙ find_symbol-first m key (some scope) (xs ++ ys)
                (Nest-mono m.next m.next (omega arith) (omega arith) inner) in
          let before' : o ≡ first m.symbols key (xs ++ ys) = cc earlier in
          find_symbol-first m' key (some scope) (new ∷ (xs ++ ys))
            (pushed_scope m new s scope sc lt lt' e' c rest)
          ∙ ap (λ a. done a m') (first-pushed new s' s.key key inner refl o before'),
    )
