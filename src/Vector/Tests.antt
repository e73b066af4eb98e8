-- ===== src/Vector/Tests.antt =====
-- A vector of Vector.hpp with room for three elements, on which its theorems are used.
use learn_space.Base.{ℕ, ◌≡◌, refl, true, none, some, [], ◌∷◌, arith, ok, ◌==◌}
use learn_space.Vector.{Vector, append, insert, remove_range, remove_one, subscript}
use learn_space.Vector.Holds.{Holds, Makes}
use learn_space.Vector.Growth.{append-Holds}
use learn_space.Vector.Insert.{insert-Holds}
use learn_space.Vector.Remove.{remove_range-Holds}
use learn_space.Vector.Erase.{remove_one-Holds, erased}
use learn_space.Vector.Read.{subscript-get}

abbrev pub two : Vector ℕ
two = record { element = some 4 ∷ some 7 ∷ none ∷ []; size = 2; step = 10; capacity = 3 }

pub two-Holds : Holds two (4 ∷ 7 ∷ [])
two-Holds = record {
  rest = none ∷ [];
  cells = refl;
  sized = refl;
  room = refl;
  small = omega arith;
  step_pos = omega arith;
  step_small = omega arith;
}

-- The same without free room.
abbrev full : Vector ℕ
full = record { element = some 4 ∷ some 7 ∷ []; size = 2; step = 10; capacity = 2 }

full-Holds : Holds full (4 ∷ 7 ∷ [])
full-Holds = record {
  rest = [];
  cells = refl;
  sized = refl;
  room = refl;
  small = omega arith;
  step_pos = omega arith;
  step_small = omega arith;
}

append_example : Makes (append full 5) (4 ∷ 7 ∷ 5 ∷ [])
append_example = append-Holds 5 full-Holds (omega arith)

insert_example : Makes (insert full 1 5) (4 ∷ 5 ∷ 7 ∷ [])
insert_example = insert-Holds (4 ∷ []) (7 ∷ []) 1 5 full-Holds refl (omega arith)

remove_range_example : Makes (remove_range two 1 8) (4 ∷ [])
remove_range_example = remove_range-Holds 1 8 two-Holds (omega arith)

remove_one_example : Makes (remove_one ◌==◌ two 4 1 true) (7 ∷ [])
unfolding erased
remove_one_example = remove_one-Holds ◌==◌ 4 1 true two-Holds

subscript_example : subscript two 1 ≡ ok 7
subscript_example = subscript-get 1 two-Holds
