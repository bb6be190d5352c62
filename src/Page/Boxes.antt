-- ===== src/Page/Boxes.antt =====
-- stoi and the numbers of domToDiv: lemmas on how they end.
use cpp_custom.Prelude.{
  Bool, Bytes, Option, [], ◌∷◌, true, false, none, some, ℕ, ◌^◌, ltb, leb, ◌==◌, codes,
}
use cpp_custom.Prelude.Int.{ℤ, minus, neg, pos}
use cpp_custom.Browser.Types.{Platform}
use cpp_custom.Page.Types.{◌>>=◌, Outcome, Element, Engine, done, thrown}
use cpp_custom.Page.Store.{find}
use cpp_custom.Page.Draw.{read_number, get_num_value, new_box}
use cpp_custom.Page.Numbers.{after_spaces, magnitude, to_int, signed, stoi}
use cpp_custom.Page.Outcome.{Ends, Ends-bind, either}

to_int-Ends : (minus : Bool) (o : Option ℕ) → Ends false (λ n. Unit {0}) (to_int minus o)
to_int-Ends minus none = tt
to_int-Ends true (some n) =
    either (Ends false (λ z. Unit {0})) (leb n (2 ^ 31)) (done (neg (pos n))) thrown tt tt
to_int-Ends false (some n) =
    either (Ends false (λ z. Unit {0})) (ltb n (2 ^ 31)) (done (pos n)) thrown tt tt

signed-Ends : (base : ℕ) (cs : Bytes) → Ends false (λ n. Unit {0}) (signed base cs)
unfolding signed
signed-Ends base [] = tt
signed-Ends base (c ∷ cs) =
    let Q : Outcome ℤ → Type 0 = Ends false (λ z. Unit {0}) in
    either Q (c == b'-') _ _ (to_int-Ends true (magnitude base cs)) (
      either Q (c == b'+') _ _ (to_int-Ends false (magnitude base cs))
        (to_int-Ends false (magnitude base (c ∷ cs))))

read_number-Ends : (n : ℕ) (o : Option Bytes) → Ends false (λ n. Unit {0}) (read_number n o)
unfolding stoi
read_number-Ends n none = tt
read_number-Ends n (some text) = signed-Ends n (after_spaces text)

get_num_value-Ends :
    (e : Element) (key : Bytes) (n : ℕ) → Ends false (λ z. Unit {0}) (get_num_value e key n)
unfolding get_num_value
get_num_value-Ends e key n = read_number-Ends n (find key e.attributes)

-- Six numbers that are read one after the other.
six :
    {A : Type 0} (k : ℤ → ℤ → ℤ → ℤ → ℤ → ℤ → A) (a b c d e f : Outcome ℤ)
    → Ends false (λ z. Unit {0}) a
    → Ends false (λ z. Unit {0}) b
    → Ends false (λ z. Unit {0}) c
    → Ends false (λ z. Unit {0}) d
    → Ends false (λ z. Unit {0}) e
    → Ends false (λ z. Unit {0}) f
    → Ends false
        (λ z. Unit {0})
        (do a' ← a; b' ← b; c' ← c; d' ← d; e' ← e; f' ← f; done (k a' b' c' d' e' f'))
six {A} k a b c d e f ha hb hc hd he hf =
    let Q : ℤ → Type 0 = λ z. Unit {0} in
    let R : A → Type 0 = λ z. Unit {0} in
    Ends-bind false Q R a _ ha λ a' u. Ends-bind false Q R b _ hb λ b' u.
      Ends-bind false Q R c _ hc λ c' u.
        Ends-bind false Q R d _ hd
          λ d' u. Ends-bind false Q R e _ he λ e' u. Ends-bind false Q R f _ hf λ f' u. tt

module _ {P : Platform} (E : Engine P) where
  pub new_box-Ends : (e : Element) → Ends false (λ b. Unit {0}) (new_box E e)
  unfolding new_box
  new_box-Ends e =
      six _ _ _ _ _ _ _ (get_num_value-Ends e (codes "width") 0)
        (get_num_value-Ends e (codes "height") 0) (get_num_value-Ends e (codes "x") 0)
        (get_num_value-Ends e (codes "y") 0) (get_num_value-Ends e (codes "fontSize") 12)
        (get_num_value-Ends e (codes "paddingLeft") 0)
