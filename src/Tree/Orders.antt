-- ===== src/Tree/Orders.antt =====
-- The orders in which Tree.hpp means to visit a tree, as lists of its elements.
use learn_space.Base.{◌≡◌, Bool, false, List, [], ◌∷◌, ◌++◌, if◌then◌else◌, refl}
use learn_space.Tree.{Tree, invalid, node}

module _ {ℓ} {A : Type ℓ} where
  unfoldable pub preorder_list : Tree A → List A
  preorder_list invalid = []
  preorder_list (node l a r) = a ∷ (preorder_list l ++ preorder_list r)

  unfoldable pub inorder_list : Tree A → List A
  inorder_list invalid = []
  inorder_list (node l a r) = inorder_list l ++ (a ∷ inorder_list r)

  unfoldable pub postorder_list : Tree A → List A
  postorder_list invalid = []
  postorder_list (node l a r) = postorder_list l ++ (postorder_list r ++ (a ∷ []))

  module _ {S : Type ℓ} (fun : S → A → S × Bool) where
    -- One element after the other, until the callback says stop.
    unfoldable pub visit : List A → S → S
    visit [] s = s
    visit (a ∷ xs) s =
        let (s', stop) = fun s a in let rest = visit xs s' in if stop then s' else rest

    -- The callback never says stop.
    abbrev pub NeverStops : Type ℓ
    NeverStops = (s : S) (a : A) → (fun s a).1 ≡ false

    pub visit-append :
        (xs ys : List A) (s : S) → NeverStops → visit (xs ++ ys) s ≡ visit ys (visit xs s)
    unfolding visit
    visit-append [] ys s never = refl
    visit-append (x ∷ xs) ys s never = rw (never s x) (visit-append xs ys (fun s x).0 never)
