-- ===== src/Base/Counts.antt =====
-- Sums of a number over the elements of a list.
use Prim.Native.Nat.{ℕ, ◌+◌}
use mathlib.Core.List.{List, [], ◌∷◌, ◌++◌}
use mathlib.Core.Path.{◌≡◌, refl}
use native.Mathlib.Omega.{arith}

module _ {ℓ} {A : Type ℓ} (f : A → ℕ) where
  abbrev pub total : List A → ℕ
  total [] = 0
  total (x ∷ xs) = f x + total xs

  -- The element in the middle, and the others.
  pub total_middle : (xs ys : List A) (x : A) → total (xs ++ x ∷ ys) ≡ f x + total (xs ++ ys)
  total_middle [] ys x = refl
  total_middle (y ∷ xs) ys x = omega (arith, total_middle xs ys x)
