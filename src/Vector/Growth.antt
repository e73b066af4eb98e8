-- ===== src/Vector/Growth.antt =====
-- `append` and `insert` of Vector.hpp, and the room that they make.
use learn_space.Base.{
  ℕ, suc, ◌+◌, ◌≤◌, ◌<◌, ◌≡◌, refl, ap, Option, none, some, List, [], ◌∷◌, ◌++◌, map, arith,
  if◌then◌else◌, ltb, length, replicate, drop, Outcome, ok, Cells, length-append, length-replicate,
  length-drop, le→leb, Bool-cases, ltb→lt, inl, inr,
}
use learn_space.Base.Word.{add_word}
use learn_space.Vector.{Vector, max_size, construct, grow, append}
use learn_space.Vector.Holds.{Holds, Makes, memcpy-some, write-some}

module _ {ℓ} {A : Type ℓ} where
  -- A new vector is empty.
  pub construct-Holds : (n : ℕ) → n ≤ max_size → Makes {A = A} (construct n) []
  unfolding construct
  construct-Holds n h = (
    record { element = replicate n none; size = 0; step = 10; capacity = n },
    rw (le→leb n max_size h),
    record {
      rest = replicate n none;
      cells = refl;
      sized = refl;
      room = omega (arith, length-replicate {A = Option A} n none);
      small = h;
      step_pos = omega arith;
      step_small = omega arith;
    },
  )

  -- What `grow` leaves when the array was full.
  abbrev wider : ℕ → Vector A → ℕ
  wider cap v = if ltb cap (v.capacity + v.step) then cap else v.capacity + v.step

  grow-Holds :
      {v : Vector A} {xs : List A}
      → Holds v xs
      → length xs < max_size
      → v.capacity ≡ length xs
      → (w : Vector A) × (grow v ≡ ok w) × Holds w xs × (length xs < w.capacity)
  unfolding grow
  grow-Holds {v} {xs} h few full =
      let cap = wider max_size v in
      let sum : add_word v.capacity v.step ≡ v.capacity + v.step = omega arith in
      let wide : length xs < cap = ground arith in
      let bound : cap ≤ max_size = ground arith in
      (
        record v { element = map some xs ++ drop v.size (replicate cap none); capacity = cap },
        rw (
          le→leb (add_word v.capacity 1) max_size (omega arith),
          sum,
          h.cells,
          memcpy-some cap xs h.rest v.size h.sized (omega arith),
        ),
        record {
          rest = drop v.size (replicate cap none);
          cells = refl;
          sized = h.sized;
          room = omega (
            arith,
            length-drop v.size (replicate {A = Option A} cap none),
            length-replicate {A = Option A} cap none,
            h.sized,
          );
          small = bound;
          step_pos = h.step_pos;
          step_small = h.step_small;
        },
        wide,
      )

  -- The vector that `append` and `insert` write into.
  abbrev pub room_for : Vector A → Outcome (Vector A)
  room_for v = if ltb v.capacity (add_word v.size 1) then grow v else ok v

  pub room_for-Holds :
      {v : Vector A} {xs : List A}
      → Holds v xs
      → length xs < max_size
      → (w : Vector A) × (room_for v ≡ ok w) × Holds w xs × (length xs < w.capacity)
  room_for-Holds {v} {xs} h few = elim (Bool-cases (ltb v.capacity (add_word v.size 1))) [
    | inl full ↦ rw full (
        grow-Holds h few
          (omega (arith, ltb→lt v.capacity (add_word v.size 1) full, h.sized, h.room)))
    | inr free ↦ (v, rw free, h, ground (arith, h.sized, h.room))
  ]

  -- A vector that holds `xs` and has a cell `c` behind it.
  abbrev pub Free : Vector A → List A → Type ℓ
  Free w xs =
      (c : Option A) × (rest : Cells A) × (w.element ≡ map some xs ++ c ∷ rest)
      × (w.capacity ≡ length xs + suc (length rest))

  pub spare_cell : {w : Vector A} {xs : List A} → Holds w xs → length xs < w.capacity → Free w xs
  spare_cell {w} {xs} h wide = go h.rest h.cells h.room
    where
      go :
          (rest : Cells A)
          → w.element ≡ map some xs ++ rest
          → w.capacity ≡ length xs + length rest
          → Free w xs
      go [] e r = absurd (omega arith)
      go (c ∷ rest) e r = (c, rest, e, r)

  -- One element more, in the free cell.
  pub extend-Holds :
      {w : Vector A} {xs : List A} (ys : List A) (rest : Cells A)
      → Holds w xs
      → length ys ≡ suc (length xs)
      → w.capacity ≡ length xs + suc (length rest)
      → Holds (record w { element = map some ys ++ rest; size = add_word w.size 1 }) ys
  extend-Holds {w} ys rest h one r = record {
    rest = rest;
    cells = refl;
    sized = omega (arith, h.sized, h.small);
    room = omega arith;
    small = h.small;
    step_pos = h.step_pos;
    step_small = h.step_small;
  }

  pub map-snoc :
      (xs : List A) (t : A) (rest : Cells A)
      → map some xs ++ some t ∷ rest ≡ map some (xs ++ t ∷ []) ++ rest
  map-snoc [] t rest = refl
  map-snoc (x ∷ xs) t rest = ap (◌∷◌ (some x)) (map-snoc xs t rest)

  -- `append` adds the element at the end, growing the array when it is full, if the vector has not
  -- reached `m_maxSize`, and its step is at least 1 and below 2 ^ 24.
  pub append-Holds :
      {v : Vector A} {xs : List A} (t : A)
      → Holds v xs
      → length xs < max_size
      → Makes (append v t) (xs ++ t ∷ [])
  unfolding append
  append-Holds {v} {xs} t h few =
      let (w, made, hw, wide) = room_for-Holds h few in
      let (c, rest, e, r) = spare_cell hw wide in
      (
        record w { element = map some (xs ++ t ∷ []) ++ rest; size = add_word w.size 1 },
        rw (made, e, write-some xs c rest w.size t hw.sized, map-snoc),
        extend-Holds (xs ++ t ∷ []) rest hw (omega (arith, length-append xs (t ∷ []))) r,
      )
