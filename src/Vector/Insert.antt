-- ===== src/Vector/Insert.antt =====
-- `insert` of Vector.hpp: in range, just past it, and further.
use learn_space.Base.{
  unsnoc, ℕ, zero, suc, ◌+◌, ◌<◌, ◌≡◌, refl, sym, ap, Option, none, some, List, [], ◌∷◌, ◌++◌, map,
  append-nil, append_assoc, arith, length, set, get_elem?, ok, faults, Cells, value, length-append,
  lt→ltb, le→ltb, ◌⊎◌, inl, inr, get_elem?-eq-none, length-set,
}
use learn_space.Base.Word.{word, add_word, sub_word}
use mathlib.Core.Path.{subst}
use learn_space.Vector.{Vector, max_size, shift, insert}
use learn_space.Vector.Holds.{Holds, Makes, length-some, write-some, read-some}
use learn_space.Vector.Growth.{room_for-Holds, spare_cell, extend-Holds, map-snoc}

module _ {ℓ} {A : Type ℓ} where
  map-middle :
      (xs ys : List A) (t : A) (rest : Cells A)
      → map some xs ++ some t ∷ (map some ys ++ rest) ≡ map some (xs ++ t ∷ ys) ++ rest
  map-middle [] ys t rest = refl
  map-middle (x ∷ xs) ys t rest = ap (◌∷◌ (some x)) (map-middle xs ys t rest)

  shift-step :
      (n : ℕ) (xs zs : List A) (y : A) (c c' : Option A) (rest : Cells A) (i : ℕ)
      → i ≡ suc (length (xs ++ zs))
      → i < word
      → shift n (map some (xs ++ zs) ++ some y ∷ some y ∷ rest) (length (xs ++ zs))
        ≡ ok (map some xs ++ c' ∷ (map some zs ++ some y ∷ rest))
      → shift (suc n) (map some (xs ++ (zs ++ y ∷ [])) ++ c ∷ rest) i
        ≡ ok (map some xs ++ c' ∷ (map some (zs ++ y ∷ []) ++ rest))
  unfolding shift
  shift-step n xs zs y c c' rest i k lt ih =
      let j : sub_word i 1 ≡ length (xs ++ zs) = omega arith in
      let len : length ((xs ++ zs) ++ y ∷ []) ≡ suc (length (xs ++ zs)) =
        omega (arith, length-append (xs ++ zs) (y ∷ [])) in
      rw (
        ← append_assoc xs zs (y ∷ []),
        j,
        read-some (xs ++ zs) [] y (c ∷ rest) (length (xs ++ zs)) refl,
        write-some ((xs ++ zs) ++ y ∷ []) c rest i y (omega arith),
        ← map-snoc (xs ++ zs) y (some y ∷ rest),
        ih,
        map-snoc zs y rest,
      )

  -- The loop moves `ys` up by one cell; what it leaves in the cell before them is written next.
  shift-some :
      (n : ℕ) (xs ys : List A) (c : Option A) (rest : Cells A) (i : ℕ)
      → n ≡ length ys
      → i ≡ length (xs ++ ys)
      → i < word
      → (c' : Option A) × (shift n (map some (xs ++ ys) ++ c ∷ rest) i
          ≡ ok (map some xs ++ c' ∷ (map some ys ++ rest)))
  unfolding shift
  shift-some zero xs [] c rest i h k lt = (c, rw append-nil)
  shift-some zero xs (y ∷ ys) c rest i h k lt = absurd (omega arith)
  shift-some (suc n) xs ys c rest i h k lt =
      let (zs, y, e, hn) = unsnoc n ys h in
      let len = length-append xs ys in
      let k' : i ≡ suc (length (xs ++ zs)) = omega (arith, length-append xs zs) in
      let (c', ih) =
        shift-some n xs zs (some y) (some y ∷ rest) (length (xs ++ zs)) hn refl (omega arith) in
      (
        c',
        subst
            (λ l.
              shift (suc n) (map some (xs ++ l) ++ c ∷ rest) i
              ≡ ok (map some xs ++ c' ∷ (map some l ++ rest)))
            (sym e) (shift-step n xs zs y c c' rest i k' lt ih),
      )

  -- `insert` at a position of the vector, or at its end, puts the element there and moves the ones
  -- behind it up, growing the array when it is full, if the vector has not reached `m_maxSize`, and
  -- its step is at least 1 and below 2 ^ 24.
  pub insert-Holds :
      {v : Vector A} (xs ys : List A) (pos : ℕ) (t : A)
      → Holds v (xs ++ ys)
      → pos ≡ length xs
      → length (xs ++ ys) < max_size
      → Makes (insert v pos t) (xs ++ t ∷ ys)
  unfolding insert
  insert-Holds {v} xs ys pos t h here few =
      let (w, made, hw, wide) = room_for-Holds h few in
      let (c, rest, e, r) = spare_cell hw wide in
      let len = length-append xs ys in
      let (c', moved) =
        shift-some (length ys) xs ys c rest w.size refl hw.sized (omega (arith, hw.sized)) in
      let count : sub_word w.size pos ≡ length ys = omega (arith, hw.sized) in
      (
        record w { element = map some (xs ++ t ∷ ys) ++ rest; size = add_word w.size 1 },
        rw (
          le→ltb (add_word v.size 1) pos (omega (arith, h.sized)),
          made,
          count,
          e,
          moved,
          write-some xs c' (map some ys ++ rest) pos t here,
          map-middle xs ys t rest,
        ),
        extend-Holds (xs ++ t ∷ ys) rest hw (omega (arith, length-append xs (t ∷ ys))) r,
      )

  -- The loop, started with more rounds than positions below it, reads before the array.
  shift_runs_off :
      (count : ℕ) (p : Cells A) (i : ℕ)
      → i < count
      → i < length p
      → length p < word
      → shift count p i ≡ faults
  unfolding shift
  shift_runs_off zero p i h k l = absurd (omega arith)
  shift_runs_off (suc count) p zero h k l = rw (get_elem?-eq-none p (sub_word 0 1) (omega arith))
  shift_runs_off (suc count) p (suc i) h k l =
      let down : sub_word (suc i) 1 ≡ i = omega arith in
      rw down (elim (cell_cases (get_elem? p i)) [
        | inl bad ↦ rw bad
        | inr (x, good) ↦
            rw (good, lt→ltb (suc i) (length p) k)
              (shift_runs_off count (set p (suc i) (some x)) i (omega arith)
                (omega (arith, length-set p (suc i) (some x)))
                (omega (arith, length-set p (suc i) (some x))))
      ])
    where
      cell_cases : (o : Option (Option A)) → (value o ≡ faults) ⊎ ((x : A) × (value o ≡ ok x))
      cell_cases none = inl refl
      cell_cases (some none) = inl refl
      cell_cases (some (some x)) = inr (x, refl)

  -- `insert` one past the end, which the guard lets through, runs into undefined behaviour.
  pub insert_past_end :
      {v : Vector A} (xs : List A) (pos : ℕ) (t : A)
      → Holds v xs
      → pos ≡ length xs + 1
      → length xs < max_size
      → insert v pos t ≡ faults
  unfolding insert
  insert_past_end {v} xs pos t h past few =
      let (w, made, hw, wide) = room_for-Holds h few in
      let (c, rest, e, r) = spare_cell hw wide in
      rw (
        le→ltb (add_word v.size 1) pos (omega (arith, h.sized)),
        made,
        shift_runs_off (sub_word w.size pos) w.element w.size (omega (arith, hw.sized))
            (omega (arith, hw.sized, ap length e, length-some xs (c ∷ rest)))
            (omega (arith, hw.small, ap length e, length-some xs (c ∷ rest))),
      )
