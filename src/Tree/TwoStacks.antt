-- ===== src/Tree/TwoStacks.antt =====
-- `postorderTraversalV2` of Tree.hpp, with two stacks.
use learn_space.Base.{
  ℕ, zero, suc, ◌+◌, ◌^◌, ◌<◌, ◌≡◌, refl, sym, ap, ◌∙◌, Bool, List, [], ◌∷◌, ◌++◌, append-nil,
  append_assoc, arith, length, ok, length-append, Bool-cases, inl, inr,
}
use learn_space.Stack.{Stack}
use learn_space.Stack.Holds.{Stacks, construct-Stacks, push-Stacks, pop-Stacks}
use learn_space.Tree.{Tree, invalid, node, valid, count, fill_loop, empty_loop, postorder_v2}
use learn_space.Tree.Orders.{postorder_list, visit}
use learn_space.Tree.Pending.{
  bottom_up, bottom_up-append, AllValid, total, cons_valid, length-le-total, total-cons_valid,
  AllValid-cons_valid, push_valid-Stacks, is_empty-nil, is_empty-cons,
}
use mathlib.Core.Path.{subst}

module _ {ℓ} {A : Type ℓ} where
  -- The nodes of a tree in postorder, each as the tree below it.
  abbrev nodes : Tree A → List (Tree A)
  nodes invalid = []
  nodes (node l a r) = nodes l ++ (nodes r ++ node l a r ∷ [])

  -- The same, over pending trees, the top one visited last.
  abbrev nodes_all : List (Tree A) → List (Tree A)
  nodes_all [] = []
  nodes_all (t ∷ ps) = nodes_all ps ++ nodes t

  abbrev roots : List (Tree A) → List A
  roots [] = []
  roots (invalid ∷ ps) = roots ps
  roots (node l a r ∷ ps) = a ∷ roots ps

  roots-append : (ps qs : List (Tree A)) → roots (ps ++ qs) ≡ roots ps ++ roots qs
  roots-append [] qs = refl
  roots-append (invalid ∷ ps) qs = roots-append ps qs
  roots-append (node l a r ∷ ps) qs = ap (◌∷◌ a) (roots-append ps qs)

  roots-nodes : (t : Tree A) → roots (nodes t) ≡ postorder_list t
  unfolding postorder_list
  roots-nodes invalid = refl
  roots-nodes (node l a r) = rw (
    roots-append (nodes l) (nodes r ++ node l a r ∷ []),
    roots-append (nodes r) (node l a r ∷ []),
    roots-nodes l,
    roots-nodes r,
  )

  AllValid-append : (ps qs : List (Tree A)) → AllValid ps → AllValid qs → AllValid (ps ++ qs)
  AllValid-append [] qs v w = w
  AllValid-append (p ∷ ps) qs v w = (v.0, AllValid-append ps qs v.1 w)

  AllValid-nodes : (t : Tree A) → AllValid (nodes t)
  unfolding valid
  AllValid-nodes invalid = tt
  AllValid-nodes (node l a r) =
      AllValid-append (nodes l) _ (AllValid-nodes l)
        (AllValid-append (nodes r) _ (AllValid-nodes r) (refl, tt))

  length-nodes : (t : Tree A) → length (nodes t) ≡ count t
  unfolding count
  length-nodes invalid = refl
  length-nodes (node l a r) = omega (
    arith,
    length-append (nodes l) (nodes r ++ node l a r ∷ []),
    length-append (nodes r) (node l a r ∷ []),
    length-nodes l,
    length-nodes r,
  )

  nodes_all-cons_valid :
      (t : Tree A) (ps : List (Tree A)) → nodes_all (cons_valid t ps) ≡ nodes_all ps ++ nodes t
  nodes_all-cons_valid invalid ps = sym (append-nil (nodes_all ps))
  nodes_all-cons_valid (node l a r) ps = refl

  -- What the second stack holds after one more round, and after all of them.
  round_nodes :
      (l r t : Tree A) (ps : List (Tree A)) (zs : List (Tree A))
      → (zs ++ t ∷ []) ++ bottom_up (nodes_all (cons_valid r (cons_valid l ps)))
        ≡ zs ++ bottom_up (nodes_all ps ++ (nodes l ++ (nodes r ++ t ∷ [])))
  round_nodes l r t ps zs =
      let inner : nodes_all (cons_valid r (cons_valid l ps))
          ≡ (nodes_all ps ++ nodes l) ++ nodes r =
        nodes_all-cons_valid r (cons_valid l ps)
        ∙ ap (λ x. x ++ nodes r) (nodes_all-cons_valid l ps) in
      let regroup : nodes_all ps ++ (nodes l ++ (nodes r ++ t ∷ []))
          ≡ ((nodes_all ps ++ nodes l) ++ nodes r) ++ t ∷ [] =
        simp append_assoc in
      ap (λ x. (zs ++ t ∷ []) ++ bottom_up x) inner
      ∙ append_assoc zs (t ∷ []) (bottom_up ((nodes_all ps ++ nodes l) ++ nodes r))
      ∙ ap (λ x. zs ++ x)
          (sym (bottom_up-append ((nodes_all ps ++ nodes l) ++ nodes r) (t ∷ []))
            ∙ ap bottom_up (sym regroup))

  fill_loop-Stacks :
      (fuel : ℕ) (ps zs : List (Tree A)) (stack1 stack2 : Stack (Tree A))
      → Stacks stack1 (bottom_up ps)
      → Stacks stack2 zs
      → AllValid ps
      → total ps < fuel
      → length zs + total ps < 2 ^ 31
      → (stack : Stack (Tree A)) × (fill_loop fuel stack1 stack2 ≡ ok stack)
        × Stacks stack (zs ++ bottom_up (nodes_all ps))
  unfolding fill_loop count valid
  fill_loop-Stacks zero ps zs stack1 stack2 h1 h2 v enough few = absurd (omega arith)
  fill_loop-Stacks (suc fuel) [] zs stack1 stack2 h1 h2 v enough few =
      (stack2, rw (is_empty-nil h1), subst (Stacks stack2) (sym (append-nil zs)) h2)
  fill_loop-Stacks (suc fuel) (invalid ∷ ps) zs stack1 stack2 h1 h2 v enough few = absurd (cc (v.0))
  fill_loop-Stacks (suc fuel) (node l a r ∷ ps) zs stack1 stack2 h1 h2 v enough few =
      let t = node l a r in
      let (rest, popped, h3) = pop-Stacks (bottom_up ps) t h1 in
      let (filled, put, h4) = push-Stacks t h2 (omega arith) in
      let (left, pushed_l, h5) =
        push_valid-Stacks l ps h3 (omega (arith, length-le-total ps v.1)) in
      let v5 = AllValid-cons_valid l ps v.1 in
      let (right, pushed_r, h6) =
        push_valid-Stacks r (cons_valid l ps) h5
          (omega (arith, length-le-total (cons_valid l ps) v5, total-cons_valid l ps)) in
      let total5 = total-cons_valid l ps in
      let total6 = total-cons_valid r (cons_valid l ps) in
      let (stack, ran, h) =
        fill_loop-Stacks fuel (cons_valid r (cons_valid l ps)) (zs ++ t ∷ []) right filled h6 h4
          (AllValid-cons_valid r (cons_valid l ps) v5) (omega arith)
          (omega (arith, length-append zs (t ∷ []))) in
      (
        stack,
        rw (is_empty-cons t ps h1, popped, put, pushed_l, pushed_r, ran),
        subst (Stacks stack) (round_nodes l r t ps zs) h,
      )

  module _ {S : Type ℓ} (fun : S → A → S × Bool) where
    empty_loop-visit :
        (fuel : ℕ) (ts : List (Tree A)) (stack : Stack (Tree A)) (s : S)
        → Stacks stack (bottom_up ts)
        → AllValid ts
        → length ts < fuel
        → empty_loop fun fuel stack s ≡ ok (visit fun (roots ts) s)
    unfolding empty_loop visit valid
    empty_loop-visit zero ts stack s h v enough = absurd (omega arith)
    empty_loop-visit (suc fuel) [] stack s h v enough = rw (is_empty-nil h)
    empty_loop-visit (suc fuel) (invalid ∷ ts) stack s h v enough = absurd (cc (v.0))
    empty_loop-visit (suc fuel) (node l a r ∷ ts) stack s h v enough =
        let (rest, popped, h') = pop-Stacks (bottom_up ts) (node l a r) h in
        let ih = empty_loop-visit fuel ts rest (fun s a).0 h' v.1 (omega arith) in
        elim (Bool-cases (fun s a).1) [
          | inl stop ↦ rw (is_empty-cons (node l a r) ts h, popped, stop)
          | inr go ↦ rw (is_empty-cons (node l a r) ts h, popped, go, ih)
        ]

    -- The traversal with two stacks ends normally, and visits the elements in postorder until the
    -- callback says stop, on any tree whose nodes an `int` can count.
    pub postorder_v2-visit :
        (fuel : ℕ) (t : Tree A) (s : S)
        → count t < fuel
        → count t < 2 ^ 31
        → postorder_v2 fun fuel t s ≡ ok (visit fun (postorder_list t) s)
    unfolding postorder_v2 valid
    postorder_v2-visit fuel invalid s enough few = unfold postorder_list visit in refl
    postorder_v2-visit fuel (node l a r) s enough few =
        let t = node l a r in
        let (empty1, made, h0) = construct-Stacks {A = Tree A} in
        let (stack1, pushed, h1) = push-Stacks t h0 (omega arith) in
        let (stack2, filled, h2) =
          fill_loop-Stacks fuel (t ∷ []) [] stack1 empty1 h1 h0 (refl, tt) (omega arith)
            (omega arith) in
        let run =
          empty_loop-visit fuel (nodes t) stack2 s h2 (AllValid-nodes t)
            (omega (arith, length-nodes t)) in
        rw (made, pushed, filled, run, roots-nodes t)
