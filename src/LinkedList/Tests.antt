-- ===== src/LinkedList/Tests.antt =====
-- The list of List.hpp on small inputs.
use learn_space.Base.{
  ℕ, ◌==◌, ◌≡◌, refl, true, some, List, [], ◌∷◌, inl, Outcome, ok, or_throw, arith,
}
use learn_space.Nodes.Linked.{Stores}
use learn_space.LinkedList.Find.{at-get_elem?}
use learn_space.LinkedList.Ends.{construct-Stores, append-Stores}
use learn_space.LinkedList.Middle.{remove_at-Stores}
use learn_space.LinkedList.Insert.{insert-Stores}
use learn_space.LinkedList.Whole.{Freed, clear-Stores}
use learn_space.LinkedList.Search.{remove_one-Stores}
use learn_space.LinkedList.Range.{remove_range-Stores}
use learn_space.LinkedList.{
  LinkedList, construct, at, append, insert, remove_at, remove_range, remove_one, clear,
}

abbrev Makes : Outcome (LinkedList ℕ) → List ℕ → Type 0
Makes m xs = (c : LinkedList ℕ) × (m ≡ ok c) × Stores c xs

abbrev one : Makes (append (construct 0) 7) (7 ∷ [])
one = append-Stores (construct 0) 7 [] (construct-Stores 0) (omega arith)

abbrev two : Makes (append one.0 8) (7 ∷ 8 ∷ [])
two = append-Stores one.0 8 (7 ∷ []) one.2 (omega arith)

abbrev three : Makes (append two.0 9) (7 ∷ 8 ∷ 9 ∷ [])
three = append-Stores two.0 9 (7 ∷ 8 ∷ []) two.2 (omega arith)

at-get_elem?_example : at three.0 2 ≡ or_throw (some 9)
at-get_elem?_example = at-get_elem? three.0 (7 ∷ 8 ∷ 9 ∷ []) 2 three.2

remove_at-Stores_example : Makes (remove_at three.0 1) (7 ∷ 9 ∷ [])
remove_at-Stores_example = remove_at-Stores three.0 (7 ∷ []) 8 (9 ∷ []) three.2

insert-Stores_example : Makes (insert three.0 2 5) (7 ∷ 8 ∷ 5 ∷ 9 ∷ [])
insert-Stores_example =
    insert-Stores three.0 5 (7 ∷ 8 ∷ []) (9 ∷ []) three.2 (omega arith) (inl (omega arith))

clear-Stores_example :
    (c : LinkedList ℕ) × (clear two.0 ≡ ok c) × Stores c [] × Freed two.0.live two.2.nodes c.live
clear-Stores_example = clear-Stores two.0 (7 ∷ 8 ∷ []) two.2

remove_one-Stores_example : Makes (remove_one ◌==◌ three.0 8 0 true) (7 ∷ 9 ∷ [])
remove_one-Stores_example = remove_one-Stores ◌==◌ 8 three.0 (7 ∷ []) 8 9 [] three.2 (refl, tt) refl

remove_range-Stores_example : Makes (remove_range three.0 1 4) (7 ∷ [])
remove_range-Stores_example =
    remove_range-Stores three.0 (7 ∷ []) 8 (9 ∷ []) 4 three.2 (omega arith) (omega arith)
