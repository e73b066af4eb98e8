-- ===== src/Queue/Tests.antt =====
-- The queue (Queue.hpp) on small inputs.
use learn_space.Base.{ℕ, ◌≡◌, [], ◌∷◌, ok, arith}
use learn_space.Queue.{Queue, construct, push_back, pop_front}
use learn_space.Nodes.Linked.{Stores}
use learn_space.Queue.Ends.{construct-Stores, pop_front-Stores}
use learn_space.Queue.Behind.{push_back-Stores}

abbrev none : Queue ℕ
none = construct 0

push_back-Stores_example : (c : Queue ℕ) × (push_back none 7 ≡ ok c) × Stores c (7 ∷ [])
push_back-Stores_example = push_back-Stores none 7 [] (construct-Stores 0) (omega arith)

abbrev pushed_once : (c : Queue ℕ) × (push_back none 7 ≡ ok c) × Stores c (7 ∷ [])
pushed_once = push_back-Stores none 7 [] (construct-Stores 0) (omega arith)

abbrev one : Queue ℕ
one = pushed_once.0

pop_front-Stores_example : (c : Queue ℕ) × (pop_front one ≡ ok (7, c)) × Stores c []
pop_front-Stores_example = pop_front-Stores one 7 [] pushed_once.2
