-- ===== src/Tree/Tests.antt =====
-- A tree of Tree.hpp with four nodes, on which its theorems are used. The callback notes the
-- elements in a list, and in the second case stops at 3.
use learn_space.Base.{ℕ, ◌≡◌, Bool, false, List, [], ◌∷◌, ◌++◌, arith, ok, ◌==◌}
use learn_space.Tree.{Tree, invalid, node, count, preorder_v2, postorder_v2}
use learn_space.Tree.Orders.{visit, preorder_list, postorder_list}
use learn_space.Tree.Iterative.{preorder_v2-visit}
use learn_space.Tree.TwoStacks.{postorder_v2-visit}

abbrev four : Tree ℕ
four = node (node invalid 2 (node invalid 3 invalid)) 1 (node invalid 4 invalid)

abbrev note : List ℕ → ℕ → List ℕ × Bool
note seen a = (seen ++ a ∷ [], false)

abbrev note_to_3 : List ℕ → ℕ → List ℕ × Bool
note_to_3 seen a = (seen ++ a ∷ [], a == 3)

preorder_v2_example : preorder_v2 note_to_3 5 four [] ≡ ok (1 ∷ 2 ∷ 3 ∷ [])
unfolding visit preorder_list count
preorder_v2_example = preorder_v2-visit note_to_3 5 four [] (omega arith) (omega arith)

postorder_v2_example : postorder_v2 note 5 four [] ≡ ok (3 ∷ 2 ∷ 4 ∷ 1 ∷ [])
unfolding visit postorder_list count
postorder_v2_example = postorder_v2-visit note 5 four [] (omega arith) (omega arith)
