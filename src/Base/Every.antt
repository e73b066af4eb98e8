-- ===== src/Base/Every.antt =====
-- Lists all of whose elements have a property.
use mathlib.Core.List.{List, [], ◌∷◌, ◌++◌}

-- All elements have the property.
abbrev pub All {ℓ κ} : {A : Type ℓ} → (A → Type κ) → List A → Type κ
All P [] = Unit
All P (x ∷ xs) = P x × All P xs

module _ {ℓ κ} {A : Type ℓ} (P : A → Type κ) where
  pub All-append : (xs ys : List A) → All P xs → All P ys → All P (xs ++ ys)
  All-append [] ys h k = k
  All-append (x ∷ xs) ys h k = (h.0, All-append xs ys h.1 k)

  pub All-left : (xs ys : List A) → All P (xs ++ ys) → All P xs
  All-left [] ys h = tt
  All-left (x ∷ xs) ys h = (h.0, All-left xs ys h.1)

  pub All-right : (xs ys : List A) → All P (xs ++ ys) → All P ys
  All-right [] ys h = h
  All-right (x ∷ xs) ys h = All-right xs ys h.1

  -- Without the element in the middle.
  pub All-without : (xs ys : List A) (y : A) → All P (xs ++ y ∷ ys) → All P (xs ++ ys)
  All-without xs ys y h = All-append xs ys (All-left xs (y ∷ ys) h) (All-right xs (y ∷ ys) h).1

  -- With an element in the middle.
  pub All-insert : (xs ys : List A) (y : A) → P y → All P (xs ++ ys) → All P (xs ++ y ∷ ys)
  All-insert [] ys y p h = (p, h)
  All-insert (x ∷ xs) ys y p h = (h.0, All-insert xs ys y p h.1)
