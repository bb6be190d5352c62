-- ===== src/Html/Tree.antt =====
-- `class DOM` and `class Node`. A new DOM has no children set.
use cpp_custom.Prelude.{Bytes, List, [], equal, if◌then◌else◌, ◌∷◌}

mutual
  pub data Dom : Type 0 where
    dom :
        (name : Bytes) (attributes : List (Bytes × Bytes)) (inner_html : Bytes) (children : Node)
        → Dom

  pub data Node : Type 0 where
    unset : Node
    text : Bytes → Node
    nodes : Doms → Node

  pub data Doms : Type 0 where
    nil : Doms
    cons : Dom → Doms → Doms

abbrev pub new_dom : Bytes → Dom
new_dom name = dom name [] [] unset

abbrev pub append_dom : Doms → Dom → Doms
append_dom nil d = cons d nil
append_dom (cons c cs) d = cons c (append_dom cs d)

-- `attributes.insert({key, value})` keeps the value of a key that is there.
unfoldable pub insert : Bytes → Bytes → List (Bytes × Bytes) → List (Bytes × Bytes)
insert k v [] = (k, v) ∷ []
insert k v ((j, w) ∷ m) = if equal j k then (j, w) ∷ m else (j, w) ∷ insert k v m
