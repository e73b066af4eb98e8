-- ===== src/Stack/Tests.antt =====
-- A stack of Stack.hpp with two elements, and an empty one, on which its theorems are used.
use learn_space.Base.{ℕ, refl, none, some, [], ◌∷◌, arith}
use learn_space.Stack.{Stack, npos}
use learn_space.Stack.Holds.{Stacks}

abbrev two : Stack ℕ
two = record {
  base = record { element = some 4 ∷ some 7 ∷ none ∷ []; size = 2; step = 10; capacity = 3 };
  top_index = 1;
}

two-Stacks : Stacks two (4 ∷ 7 ∷ [])
two-Stacks = record {
  holds = record {
    rest = none ∷ [];
    cells = refl;
    sized = refl;
    room = refl;
    small = omega arith;
    step_pos = omega arith;
    step_small = omega arith;
  };
  topped = refl;
  few = omega arith;
}

abbrev bare : Stack ℕ
bare = record {
  base = record { element = none ∷ []; size = 0; step = 10; capacity = 1 };
  top_index = npos;
}

bare-Stacks : Stacks bare []
bare-Stacks = record {
  holds = record {
    rest = none ∷ [];
    cells = refl;
    sized = refl;
    room = refl;
    small = omega arith;
    step_pos = omega arith;
    step_small = omega arith;
  };
  topped = refl;
  few = omega arith;
}
