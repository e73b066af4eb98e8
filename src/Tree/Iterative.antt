-- ===== src/Tree/Iterative.antt =====
-- `preorderTraversalV2` of Tree.hpp, with one stack.
use learn_space.Base.{
  ℕ, zero, suc, ◌^◌, ◌<◌, ◌≡◌, refl, sym, ap, ◌∙◌, Bool, List, [], ◌∷◌, ◌++◌, append-nil,
  append_assoc, arith, ok, Bool-cases, inl, inr,
}
use learn_space.Stack.{Stack}
use learn_space.Stack.Holds.{Stacks, construct-Stacks, push-Stacks, pop-Stacks}
use learn_space.Tree.{Tree, invalid, node, valid, count, preorder_loop, preorder_v2}
use learn_space.Tree.Orders.{preorder_list, visit}
use learn_space.Tree.Pending.{
  bottom_up, AllValid, total, cons_valid, length-le-total, total-cons_valid, AllValid-cons_valid,
  push_valid-Stacks, is_empty-nil, is_empty-cons,
}

module _ {ℓ} {A : Type ℓ} where
  -- The elements under the pending trees, in the order of their visits.
  abbrev preorder_all : List (Tree A) → List A
  preorder_all [] = []
  preorder_all (t ∷ ps) = preorder_list t ++ preorder_all ps

  preorder_all-cons_valid :
      (t : Tree A) (ps : List (Tree A))
      → preorder_all (cons_valid t ps) ≡ preorder_list t ++ preorder_all ps
  unfolding preorder_list
  preorder_all-cons_valid invalid ps = refl
  preorder_all-cons_valid (node l a r) ps = refl

  module _ {S : Type ℓ} (fun : S → A → S × Bool) where
    preorder_loop-visit :
        (fuel : ℕ) (ps : List (Tree A)) (stack : Stack (Tree A)) (s : S)
        → Stacks stack (bottom_up ps)
        → AllValid ps
        → total ps < fuel
        → total ps < 2 ^ 31
        → preorder_loop fun fuel stack s ≡ ok (visit fun (preorder_all ps) s)
    unfolding preorder_loop preorder_list visit count valid
    preorder_loop-visit zero ps stack s h v enough few = absurd (omega arith)
    preorder_loop-visit (suc fuel) [] stack s h v enough few = rw (is_empty-nil h)
    preorder_loop-visit (suc fuel) (invalid ∷ ps) stack s h v enough few = absurd (cc (v.0))
    preorder_loop-visit (suc fuel) (node l a r ∷ ps) stack s h v enough few =
        let (stack1, popped, h1) = pop-Stacks (bottom_up ps) (node l a r) h in
        let (stack2, pushed_r, h2) =
          push_valid-Stacks r ps h1 (omega (arith, length-le-total ps v.1)) in
        let v2 = AllValid-cons_valid r ps v.1 in
        let total2 = total-cons_valid r ps in
        let (stack3, pushed_l, h3) =
          push_valid-Stacks l (cons_valid r ps) h2
            (omega (arith, length-le-total (cons_valid r ps) v2)) in
        let ps3 = cons_valid l (cons_valid r ps) in
        let total3 = total-cons_valid l (cons_valid r ps) in
        let ih =
          preorder_loop-visit fuel ps3 stack3 (fun s a).0 h3
            (AllValid-cons_valid l (cons_valid r ps) v2) (omega arith) (omega arith) in
        let order : preorder_all ps3 ≡ (preorder_list l ++ preorder_list r) ++ preorder_all ps =
          preorder_all-cons_valid l (cons_valid r ps)
          ∙ ap (λ x. preorder_list l ++ x) (preorder_all-cons_valid r ps)
          ∙ sym (append_assoc (preorder_list l) (preorder_list r) (preorder_all ps)) in
        elim (Bool-cases (fun s a).1) [
          | inl stop ↦ rw (is_empty-cons (node l a r) ps h, popped, stop)
          | inr go ↦ rw (is_empty-cons (node l a r) ps h, popped, go, pushed_r, pushed_l, ih, order)
        ]

    -- The traversal with a stack ends normally, and visits the elements in preorder until the
    -- callback says stop, on any tree whose nodes an `int` can count.
    pub preorder_v2-visit :
        (fuel : ℕ) (t : Tree A) (s : S)
        → count t < fuel
        → count t < 2 ^ 31
        → preorder_v2 fun fuel t s ≡ ok (visit fun (preorder_list t) s)
    unfolding preorder_v2 preorder_list visit valid
    preorder_v2-visit fuel invalid s enough few = refl
    preorder_v2-visit fuel (node l a r) s enough few =
        let t = node l a r in
        let (empty, made, h0) = construct-Stacks {A = Tree A} in
        let (stack, pushed, h) = push-Stacks t h0 (omega arith) in
        let run =
          preorder_loop-visit fuel (t ∷ []) stack s h (refl, tt) (omega arith) (omega arith) in
        rw (made, pushed, run, append-nil)
