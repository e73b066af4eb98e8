-- ===== src/Vector/Edit.antt =====
-- The methods of Vector.hpp that change elements in place or replace them all: `swap`, `reverse`,
-- `resize`, `setStep`, and copies.
use learn_space.Base.{
  ℕ, zero, suc, ◌≤◌, ◌<◌, ◌≡◌, refl, sym, ap, ◌∙◌, Option, none, some, List, [], ◌∷◌, ◌++◌, map,
  arith, ◌==◌, length, replicate, drop, set, get_elem?, ok, faults, Cells, value, read, write,
  memcpy, length-replicate, length-drop, lt→ltb, le→leb, le→ltb, Bool-cases, inl, inr, lt→leb,
  length-set, ==_iff,
}
use learn_space.Base.Word.{add_word}
use mathlib.Core.Path.{subst}
use learn_space.Vector.{
  Vector, max_size, swap, reverse, is_empty, reverse_loop, resize, clear, set_step, copy, move,
  append, grow,
}
use learn_space.Vector.Holds.{Holds, Makes, length-some, memcpy-some}

module _ {ℓ} {A : Type ℓ} where
  -- A vector as it is, with other elements in place.
  replace-Holds :
      {v : Vector A} {xs : List A} (ys : List A) (h : Holds v xs)
      → length ys ≡ length xs
      → Holds (record v { element = map some ys ++ h.rest }) ys
  replace-Holds ys h e = record {
    rest = h.rest;
    cells = refl;
    sized = h.sized ∙ sym e;
    room = omega (arith, h.room);
    small = h.small;
    step_pos = h.step_pos;
    step_small = h.step_small;
  }

  read_at :
      (xs : List A) (rest : Cells A) (i : ℕ) (x : A)
      → get_elem? xs i ≡ some x
      → read (map some xs ++ rest) i ≡ ok x
  read_at [] rest i x e = cc
  read_at (y ∷ xs) rest zero x e = ap value (ap some e)
  read_at (y ∷ xs) rest (suc i) x e = read_at xs rest i x e

  set_at :
      (xs : List A) (rest : Cells A) (i : ℕ) (x : A)
      → i < length xs
      → set (map some xs ++ rest) i (some x) ≡ map some (set xs i x) ++ rest
  set_at [] rest i x h = elim h [ ]
  set_at (y ∷ xs) rest zero x h = refl
  set_at (y ∷ xs) rest (suc i) x h = ap (◌∷◌ (some y)) (set_at xs rest i x (omega arith))

  write_at :
      (xs : List A) (rest : Cells A) (i : ℕ) (x : A)
      → i < length xs
      → write (map some xs ++ rest) i x ≡ ok (map some (set xs i x) ++ rest)
  write_at xs rest i x h = rw (
    lt→ltb i (length (map some xs ++ rest)) (omega (arith, length-some xs rest)),
    set_at xs rest i x h,
  )

  lt_of_get : (xs : List A) (i : ℕ) (x : A) → get_elem? xs i ≡ some x → i < length xs
  lt_of_get [] i x e = cc
  lt_of_get (y ∷ xs) zero x e = omega arith
  lt_of_get (y ∷ xs) (suc i) x e = omega (arith, lt_of_get xs i x e)

  set_back : (xs : List A) (i : ℕ) (x y : A) → get_elem? xs i ≡ some x → set (set xs i y) i x ≡ xs
  set_back [] i x y e = refl
  set_back (z ∷ xs) zero x y e = ap (λ w. w ∷ xs) (ground arith)
  set_back (z ∷ xs) (suc i) x y e = ap (◌∷◌ z) (set_back xs i x y e)

  -- `swap` exchanges the elements at two indices of the vector.
  pub swap-Holds :
      {v : Vector A} {xs : List A} (i j : ℕ) (x y : A)
      → Holds v xs
      → get_elem? xs i ≡ some x
      → get_elem? xs j ≡ some y
      → Makes (swap v i j) (set (set xs i y) j x)
  unfolding swap
  swap-Holds {v} {xs} i j x y h ex ey =
      let hi = lt_of_get xs i x ex in
      let hj = lt_of_get xs j y ey in
      elim (Bool-cases (i == j)) [
        | inl same ↦
            let e : i ≡ j = (==_iff i j).0 same in
            (
              v,
              rw same,
              subst (Holds v) (sym (ap (λ k. set (set xs i y) k x) (sym e) ∙ set_back xs i x y ex))
                  h,
            )
        | inr other ↦
            let len = length-set xs i y in
            let read_i : read v.element i ≡ ok x = rw h.cells (read_at xs h.rest i x ex) in
            let read_j : read v.element j ≡ ok y = rw h.cells (read_at xs h.rest j y ey) in
            let write_i : write v.element i y ≡ ok (map some (set xs i y) ++ h.rest) =
              rw h.cells (write_at xs h.rest i y hi) in
            (
              record v { element = map some (set (set xs i y) j x) ++ h.rest },
              rw (
                other,
                lt→leb v.size i (omega (arith, h.sized)),
                lt→leb v.size j (omega (arith, h.sized)),
                read_i,
                read_j,
                write_i,
                write_at (set xs i y) h.rest j x (omega arith),
              ),
              replace-Holds (set (set xs i y) j x) h (length-set (set xs i y) j x ∙ len),
            )
      ]

  -- The guard of `reverse` is the wrong way round: it never changes a vector.
  pub reverse_same : (v : Vector A) → reverse v ≡ ok v
  unfolding reverse is_empty reverse_loop
  reverse_same v = elim (Bool-cases (v.size == 0)) [
    | inl empty ↦ rw ((==_iff v.size 0).0 empty)
    | inr full ↦ rw full
  ]

  map-replicate : (n : ℕ) (x : A) → map some (replicate n x) ++ [] ≡ replicate n (some x)
  map-replicate zero x = refl
  map-replicate (suc n) x = ap (◌∷◌ (some x)) (map-replicate n x)

  -- `resize(n, t)` drops what the vector held and makes a vector of `n` elements, of which only
  -- the first is `t`; the others are `T{}`.
  pub resize-Holds :
      (zeroed : A) (v : Vector A) (n : ℕ) (t : A)
      → suc n ≤ max_size
      → Makes (resize zeroed v (suc n) t) (t ∷ replicate n zeroed)
  unfolding resize clear
  resize-Holds zeroed v n t h = (
    record {
      element = some t ∷ replicate n (some zeroed);
      size = suc n;
      step = 10;
      capacity = suc n;
    },
    refl,
    record {
      rest = [];
      cells = ap (◌∷◌ (some t)) (sym (map-replicate n zeroed));
      sized = ap suc (sym (length-replicate n zeroed));
      room = omega (arith, length-replicate n zeroed);
      small = h;
      step_pos = omega arith;
      step_small = omega arith;
    },
  )

  -- A copy is made normally and holds the same elements.
  pub copy-Holds : {v : Vector A} {xs : List A} → Holds v xs → Makes (copy v) xs
  unfolding copy
  copy-Holds {v} {xs} h = (
    record v { element = map some xs ++ drop v.size (replicate v.capacity none) },
    let copied : memcpy (replicate v.capacity none) v.element v.size
            ≡ ok (map some xs ++ drop v.size (replicate v.capacity none)) =
          rw h.cells
            (memcpy-some v.capacity xs h.rest v.size h.sized (omega (arith, h.sized, h.room))) in
        rw copied,
    record {
      rest = drop v.size (replicate v.capacity none);
      cells = refl;
      sized = h.sized;
      room = omega (
        arith,
        length-drop v.size (replicate {A = Option A} v.capacity none),
        length-replicate {A = Option A} v.capacity none,
        h.sized,
        h.room,
      );
      small = h.small;
      step_pos = h.step_pos;
      step_small = h.step_small;
    },
  )

  -- After a move the new vector holds the elements, and the old one none.
  pub move-Holds :
      {v : Vector A} {xs : List A} → Holds v xs → Holds (move v).0 xs × Holds (move v).1 []
  unfolding move
  move-Holds h = (
    h,
    record {
      rest = [];
      cells = refl;
      sized = refl;
      room = refl;
      small = omega arith;
      step_pos = h.step_pos;
      step_small = h.step_small;
    },
  )

  -- `setStep(0)`, which nothing forbids, makes `append` to a full vector write outside the array.
  pub append_step_zero :
      {v : Vector A} {xs : List A} (t : A)
      → Holds v xs
      → v.capacity ≡ length xs
      → length xs < max_size
      → append (set_step v 0) t ≡ faults
  unfolding append grow set_step
  append_step_zero {v} {xs} t h full few =
      let cap = v.capacity in
      let fresh = replicate {A = Option A} cap none in
      let same : add_word cap 0 ≡ cap = omega (arith, h.small) in
      let copied : memcpy fresh v.element v.size ≡ ok (map some xs ++ drop v.size fresh) =
        rw h.cells (memcpy-some cap xs h.rest v.size h.sized (omega (arith, h.sized))) in
      let stuck : length (map some xs ++ drop v.size fresh) ≤ v.size = omega (
        arith,
        length-some xs (drop v.size fresh),
        length-drop v.size fresh,
        length-replicate {A = Option A} cap none,
        h.sized,
      ) in
      rw (
        lt→ltb cap (add_word v.size 1) (omega (arith, h.sized, h.small)),
        le→leb (add_word cap 1) max_size (omega arith),
        same,
        le→ltb max_size cap h.small,
        copied,
        le→ltb v.size (length (map some xs ++ drop v.size fresh)) stuck,
      )
