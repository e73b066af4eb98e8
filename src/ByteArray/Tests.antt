-- ===== src/ByteArray/Tests.antt =====
-- An array of CMByteArray.cpp with two bytes and room for two more, on which its theorems are used.
use learn_space.Base.{◌≡◌, refl, none, some, [], ◌∷◌, arith, ok, ◌==◌, if◌then◌else◌, inr}
use learn_space.ByteArray.{Store, ByteArray, copy, append}
use learn_space.ByteArray.Holds.{Holds, Spares}
use learn_space.ByteArray.Append.{append-Spares}
use learn_space.ByteArray.Share.{append-copy}

abbrev one : Store
one = record {
  buffer = λ p. if p == 1 then some (65 ∷ 66 ∷ 0 ∷ 0 ∷ []) else none;
  uses = λ p. if p == 1 then 1 else 0;
  fresh = 2;
}

abbrev two : ByteArray
two = record { pointer = some 1; size = 2; capacity = 4 }

two-Holds : Holds one two (65 ∷ 66 ∷ [])
two-Holds = record {
  at = 1;
  rest = 0 ∷ 0 ∷ [];
  pointed = refl;
  stored = refl;
  sized = refl;
  room = refl;
  roomy = omega arith;
  used = omega arith;
  below = omega arith;
}

append-Spares_example :
    (s : Store) × (b : ByteArray) × (append one two (67 ∷ []) ≡ ok (s, b))
    × Holds s b (65 ∷ 66 ∷ 67 ∷ [])
    × Spares one two s
append-Spares_example = append-Spares (67 ∷ []) two-Holds (inr (omega arith))

append-copy_example :
    (s : Store) × (b : ByteArray) × (append (copy one two).0 (copy one two).1 (67 ∷ []) ≡ ok (s, b))
    × Holds s b (65 ∷ 66 ∷ 67 ∷ [])
    × Holds s two (65 ∷ 66 ∷ [])
append-copy_example = append-copy (67 ∷ []) two-Holds

-- The same buffer, all of it in use.
abbrev four : ByteArray
four = record { pointer = some 1; size = 4; capacity = 4 }

four-Holds : Holds one four (65 ∷ 66 ∷ 0 ∷ 0 ∷ [])
four-Holds = record {
  at = 1;
  rest = [];
  pointed = refl;
  stored = refl;
  sized = refl;
  room = refl;
  roomy = omega arith;
  used = omega arith;
  below = omega arith;
}
