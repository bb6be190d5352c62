-- ===== src/Vm/Lookup/Find.antt =====
-- findSymbol on well-formed scopes.
use cpp_custom.Prelude.{List, Option, arith, length, refl, suc, zero, ℕ, ◌<◌, ◌≡◌}
use cpp_custom.Vm.Lookup.Chains.{
  Chain, Chain-length, Nest, end_of, first, first-append, inside, link, outermost,
}
use cpp_custom.Vm.Resolve.{find_in_list, find_in_scopes, find_symbol, or_else}
use cpp_custom.Vm.State.{Machine, done, opened}

find_in_list-first :
    (m : Machine) (f key : ℕ) {n : ℕ} {o : Option ℕ} {xs : List ℕ}
    → Chain m.symbols n o xs
    → length xs < f
    → find_in_list f o key m ≡ done (first m.symbols key xs) m
unfolding find_in_list first opened
find_in_list-first m zero key c lt = absurd (omega arith)
find_in_list-first m (suc f) key end_of lt = refl
find_in_list-first m (suc f) key (link {s} {xs} h e c) lt =
    ground (arith, find_in_list-first m f key c (omega arith))

find_in_scopes-first :
    (m : Machine) (f key : ℕ) {n : ℕ} {o : Option ℕ} {zs : List ℕ}
    → Nest m.symbols m.scopes m.next n o zs
    → n < f
    → find_in_scopes f o key m ≡ done (first m.symbols key zs) m
unfolding find_in_scopes or_else first opened
find_in_scopes-first m zero key c lt = absurd (omega arith)
find_in_scopes-first m (suc f) key outermost lt = refl
find_in_scopes-first m (suc f) key (inside {sc} {xs} {ys} h e c rest z) lt =
    let here : find_in_list (suc m.next) sc.list key m ≡ done (first m.symbols key xs) m =
      find_in_list-first m (suc m.next) key c (omega (arith, Chain-length c)) in
    let there : find_in_scopes f sc.parent key m ≡ done (first m.symbols key ys) m =
      find_in_scopes-first m f key rest (omega arith) in
    rw z (ground (arith, here, there, first-append m.symbols key xs ys))

-- On well-formed scopes findSymbol ends, changes nothing, and returns the first symbol with the
-- key in the order from the innermost scope outwards and from the newest symbol to the oldest, or
-- none if there is no such symbol.
pub find_symbol-first :
    (m : Machine) (key : ℕ) (scope : Option ℕ) (zs : List ℕ)
    → Nest m.symbols m.scopes m.next m.next scope zs
    → find_symbol scope key m ≡ done (first m.symbols key zs) m
unfolding find_symbol
find_symbol-first m key scope zs h = find_in_scopes-first m (suc m.next) key h (omega arith)
