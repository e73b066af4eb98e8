-- ===== src/Spin/Tests.antt =====
-- Two threads at a `SpinLock` (SpinLock.hpp), on which its theorems are used.
use learn_space.Base.{◌≡◌, refl, true, [], ◌∷◌, total}
use learn_space.Spin.{
  outside, spinning, inside, spin, Lock, spin_step, construct, Comes, come_start, come_step,
}
use learn_space.Spin.Exclusion.{has, one_inside, free_taken}

abbrev taken : Lock
taken = record { state = true; threads = inside ∷ outside ∷ [] }

abbrev waited : Lock
waited = record { state = true; threads = inside ∷ spinning 0 ∷ [] }

taken-Comes : Comes 2 taken
unfolding construct spin
taken-Comes =
    come_step (come_step come_start (spin_step _ outside [] (outside ∷ [])))
      (spin_step _ (spinning 0) [] (outside ∷ []))

waited-Comes : Comes 2 waited
unfolding spin
waited-Comes = come_step taken-Comes (spin_step true outside (inside ∷ []) [])

one_inside_example : total has waited.threads ≡ 1
one_inside_example = one_inside waited-Comes

free_taken_example : spin (construct 2).state (spinning 3) ≡ (true, inside)
unfolding construct
free_taken_example = let start : Comes 2 (construct 2) = come_start in free_taken 3 start refl
