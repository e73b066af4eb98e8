-- ===== src/Vector/Holds.antt =====
-- What a vector of Vector.hpp stands for: the sequence of its elements.
use learn_space.Base.{
  ℕ, zero, suc, ◌+◌, ◌≤◌, ◌<◌, ◌≡◌, refl, ap, ◌∙◌, Option, none, some, List, [], ◌∷◌, ◌++◌, map,
  arith, length, replicate, drop, Outcome, ok, Cells, read, write, memcpy, length-append,
  length-map, length-replicate, take-append, set-append, lt→ltb, le→leb,
}
use learn_space.Vector.{Vector, max_size}

-- The first `m_size` cells hold `xs`; the growth step is such that no 32-bit sum wraps.
pub record Holds {ℓ} {A : Type ℓ} (v : Vector A) (xs : List A) : Type ℓ where
  pub rest : Cells A
  pub cells : v.element ≡ map some xs ++ rest
  pub sized : v.size ≡ length xs
  pub room : v.capacity ≡ length xs + length rest
  pub small : v.capacity ≤ max_size
  pub step_pos : 0 < v.step
  pub step_small : v.step < 0x100_0000

-- The run ends normally, in a vector that holds `xs`.
abbrev pub Makes {ℓ} : {A : Type ℓ} → Outcome (Vector A) → List A → Type ℓ
Makes {A} r xs = (v : Vector A) × (r ≡ ok v) × Holds v xs

module _ {ℓ} {A : Type ℓ} where
  pub length-some :
      (xs : List A) (rest : Cells A) → length (map some xs ++ rest) ≡ length xs + length rest
  length-some xs rest =
      length-append (map some xs) rest ∙ ap (λ n. n + length rest) (length-map some xs)

  pub read-some :
      (xs ys : List A) (x : A) (rest : Cells A) (i : ℕ)
      → i ≡ length xs
      → read (map some (xs ++ x ∷ ys) ++ rest) i ≡ ok x
  read-some [] ys x rest zero h = refl
  read-some [] ys x rest (suc i) h = absurd (omega arith)
  read-some (y ∷ xs) ys x rest zero h = absurd (omega arith)
  read-some (y ∷ xs) ys x rest (suc i) h = read-some xs ys x rest i (omega arith)

  pub write-some :
      (xs : List A) (c : Option A) (rest : Cells A) (i : ℕ) (x : A)
      → i ≡ length xs
      → write (map some xs ++ c ∷ rest) i x ≡ ok (map some xs ++ some x ∷ rest)
  write-some xs c rest i x h = rw (
    lt→ltb i (length (map some xs ++ c ∷ rest)) (omega (arith, length-some xs (c ∷ rest))),
    set-append (map some xs) rest i c (some x) (omega (arith, length-map some xs)),
  )

  pub memcpy-some :
      (cap : ℕ) (xs : List A) (rest : Cells A) (n : ℕ)
      → n ≡ length xs
      → n ≤ cap
      → memcpy (replicate cap none) (map some xs ++ rest) n
        ≡ ok (map some xs ++ drop n (replicate cap none))
  memcpy-some cap xs rest n h k = rw (
    le→leb n (length (map some xs ++ rest)) (omega (arith, length-some xs rest)),
    le→leb n (length (replicate {A = Option A} cap none))
        (omega (arith, length-replicate {A = Option A} cap none)),
    take-append n (map some xs) rest (omega (arith, length-map some xs)),
  )
