-- ===== src/Tree/Pending.antt =====
-- The trees that the iterative traversals of Tree.hpp keep on a stack, the top one first.
use learn_space.Base.{
  ℕ, ◌+◌, ◌^◌, ◌≤◌, ◌<◌, ◌≡◌, refl, sym, ap, ◌∙◌, true, false, List, [], ◌∷◌, ◌++◌, append-nil,
  append_assoc, arith, length, ok, length-append, ne→==,
}
use learn_space.Stack
use learn_space.Stack.{Stack}
use learn_space.Stack.Holds.{Stacks, push-Stacks, size-Stacks}
use learn_space.Tree.{Tree, invalid, node, valid, count, push_valid}

module _ {ℓ} {A : Type ℓ} where
  -- From the bottom of the stack to its top.
  abbrev pub bottom_up : List A → List A
  bottom_up [] = []
  bottom_up (x ∷ xs) = bottom_up xs ++ x ∷ []

  pub length-bottom_up : (xs : List A) → length (bottom_up xs) ≡ length xs
  length-bottom_up [] = refl
  length-bottom_up (x ∷ xs) =
      omega (arith, length-append (bottom_up xs) (x ∷ []), length-bottom_up xs)

  pub bottom_up-append : (xs ys : List A) → bottom_up (xs ++ ys) ≡ bottom_up ys ++ bottom_up xs
  bottom_up-append [] ys = sym (append-nil (bottom_up ys))
  bottom_up-append (x ∷ xs) ys =
      ap (λ l. l ++ x ∷ []) (bottom_up-append xs ys)
      ∙ append_assoc (bottom_up ys) (bottom_up xs) (x ∷ [])

module _ {ℓ} {A : Type ℓ} where
  abbrev pub AllValid : List (Tree A) → Type 0
  AllValid [] = Unit {0}
  AllValid (t ∷ ps) = (valid t ≡ true) × AllValid ps

  abbrev pub total : List (Tree A) → ℕ
  total [] = 0
  total (t ∷ ps) = count t + total ps

  abbrev pub cons_valid : Tree A → List (Tree A) → List (Tree A)
  cons_valid invalid ps = ps
  cons_valid (node l a r) ps = node l a r ∷ ps

  pub length-le-total : (ps : List (Tree A)) → AllValid ps → length ps ≤ total ps
  unfolding count valid
  length-le-total [] v = omega arith
  length-le-total (invalid ∷ ps) v = absurd (cc (v.0))
  length-le-total (node l a r ∷ ps) v = omega (arith, length-le-total ps v.1)

  pub total-cons_valid :
      (t : Tree A) (ps : List (Tree A)) → total (cons_valid t ps) ≡ count t + total ps
  unfolding count
  total-cons_valid invalid ps = omega arith
  total-cons_valid (node l a r) ps = refl

  pub AllValid-cons_valid :
      (t : Tree A) (ps : List (Tree A)) → AllValid ps → AllValid (cons_valid t ps)
  unfolding valid
  AllValid-cons_valid invalid ps v = v
  AllValid-cons_valid (node l a r) ps v = (refl, v)

  pub push_valid-Stacks :
      {stack : Stack (Tree A)} (t : Tree A) (ps : List (Tree A))
      → Stacks stack (bottom_up ps)
      → length ps < 2 ^ 31
      → (stack' : Stack (Tree A)) × (push_valid stack t ≡ ok stack')
        × Stacks stack' (bottom_up (cons_valid t ps))
  unfolding push_valid valid
  push_valid-Stacks {stack} invalid ps h few = (stack, refl, h)
  push_valid-Stacks (node l a r) ps h few =
      push-Stacks (node l a r) h (omega (arith, length-bottom_up ps))

  pub is_empty-nil : {stack : Stack (Tree A)} → Stacks stack [] → Stack.is_empty stack ≡ true
  is_empty-nil h = (size-Stacks h).0

  pub is_empty-cons :
      {stack : Stack (Tree A)} (t : Tree A) (ps : List (Tree A))
      → Stacks stack (bottom_up (t ∷ ps))
      → Stack.is_empty stack ≡ false
  is_empty-cons t ps h =
      (size-Stacks h).0
      ∙ ne→== (length (bottom_up (t ∷ ps))) 0 (omega (arith, length-bottom_up (t ∷ ps)))
