-- ===== src/Tree/Recursive.antt =====
-- The recursive traversals of Tree.hpp.
use learn_space.Base.{◌≡◌, Bool, ◌++◌, ◌∷◌, [], refl}
use learn_space.Tree.{Tree, invalid, node, preorder, inorder, postorder}
use learn_space.Tree.Orders.{
  preorder_list, inorder_list, postorder_list, visit, visit-append, NeverStops,
}

module _ {ℓ} {A S : Type ℓ} (fun : S → A → S × Bool) where
  preorder-visit :
      (t : Tree A) (s : S) → NeverStops fun → preorder fun t s ≡ visit fun (preorder_list t) s
  unfolding preorder preorder_list visit
  preorder-visit invalid s never = refl
  preorder-visit (node l a r) s never = rw (
    never s a,
    visit-append fun (preorder_list l) (preorder_list r) (fun s a).0 never,
    preorder-visit l (fun s a).0 never,
    preorder-visit r (visit fun (preorder_list l) (fun s a).0) never,
  )

  inorder-visit :
      (t : Tree A) (s : S) → NeverStops fun → inorder fun t s ≡ visit fun (inorder_list t) s
  unfolding inorder inorder_list visit
  inorder-visit invalid s never = refl
  inorder-visit (node l a r) s never =
      let s1 = visit fun (inorder_list l) s in
      rw (
        visit-append fun (inorder_list l) (a ∷ inorder_list r) s never,
        inorder-visit l s never,
        never s1 a,
        inorder-visit r (fun s1 a).0 never,
      )

  postorder-visit :
      (t : Tree A) (s : S) → NeverStops fun → postorder fun t s ≡ visit fun (postorder_list t) s
  unfolding postorder postorder_list visit
  postorder-visit invalid s never = refl
  postorder-visit (node l a r) s never =
      let s1 = visit fun (postorder_list l) s in
      let s2 = visit fun (postorder_list r) s1 in
      rw (
        visit-append fun (postorder_list l) (postorder_list r ++ (a ∷ [])) s never,
        visit-append fun (postorder_list r) (a ∷ []) s1 never,
        postorder,
        postorder-visit l s never,
        postorder-visit r s1 never,
        never s2 a,
      )

  -- With a callback that never stops, the recursive traversals visit the elements of the tree, each
  -- once, in preorder, inorder and postorder.
  pub recursive_orders :
      (t : Tree A) (s : S)
      → NeverStops fun
      → (preorder fun t s ≡ visit fun (preorder_list t) s)
        × (inorder fun t s ≡ visit fun (inorder_list t) s)
        × (postorder fun t s ≡ visit fun (postorder_list t) s)
  recursive_orders t s never =
      (preorder-visit t s never, inorder-visit t s never, postorder-visit t s never)
