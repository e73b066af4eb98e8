-- ===== src/Tree.antt =====
-- Data Structure/DataStructure/Tree.hpp: the traversals of binary trees. A `Tree<T>` that is not
-- `valid()` is `invalid`. The callback `fun` has effects, so it takes a state and returns the next
-- one beside its result, which says whether to stop. `preorderTraversalV2` passes `treeNode->data`,
-- the method, to it without calling it; the model calls it.
pub mod Orders
pub mod Recursive
pub mod Pending
pub mod Iterative
pub mod TwoStacks
mod Tests
use learn_space.Base.{
  ℕ, zero, suc, ◌+◌, Bool, true, false, Outcome, ok, faults, diverges, ◌>>=◌, if◌then◌else◌,
}
use learn_space.Stack
use learn_space.Stack.{Stack}

pub data Tree {ℓ} (A : Type ℓ) : Type ℓ where
  invalid : Tree A
  node : Tree A → A → Tree A → Tree A

module _ {ℓ} {A : Type ℓ} where
  -- `valid()`
  unfoldable pub valid : Tree A → Bool
  valid invalid = false
  valid (node l a r) = true

  -- the number of nodes
  unfoldable pub count : Tree A → ℕ
  count invalid = 0
  count (node l a r) = suc (count l + count r)

  -- `if (t.valid()) stack.push(&t);`
  unfoldable pub push_valid : Stack (Tree A) → Tree A → Outcome (Stack (Tree A))
  unfolding valid
  push_valid stack t = if valid t then Stack.push stack t else ok stack

  -- the first loop of `postorderTraversalV2`, which fills `stack2` from `stack1`
  unfoldable pub fill_loop : ℕ → Stack (Tree A) → Stack (Tree A) → Outcome (Stack (Tree A))
  unfolding push_valid
  fill_loop zero stack1 stack2 = diverges
  fill_loop (suc fuel) stack1 stack2 = if Stack.is_empty stack1 then ok stack2 else do
    (t, rest) ← Stack.pop stack1
    filled ← Stack.push stack2 t
    elim t [
      | invalid ↦ faults
      | node l a r ↦ do
        with_left ← push_valid rest l
        with_right ← push_valid with_left r
        fill_loop fuel with_right filled
    ]

  module _ {S : Type ℓ} (fun : S → A → S × Bool) where
    -- `preorderTraversal`
    unfoldable pub preorder : Tree A → S → S
    preorder invalid s = s
    preorder (node l a r) s =
        let (s', stop) = fun s a in
        let rest = preorder r (preorder l s') in if stop then s' else rest

    -- `inorderTraversal`
    unfoldable pub inorder : Tree A → S → S
    inorder invalid s = s
    inorder (node l a r) s =
        let (s', stop) = fun (inorder l s) a in let rest = inorder r s' in if stop then s' else rest

    -- `postorderTraversal`
    unfoldable pub postorder : Tree A → S → S
    postorder invalid s = s
    postorder (node l a r) s = (fun (postorder r (postorder l s)) a).0

    -- the loop of `preorderTraversalV2`, on fuel
    unfoldable pub preorder_loop : ℕ → Stack (Tree A) → S → Outcome S
    unfolding push_valid
    preorder_loop zero stack s = diverges
    preorder_loop (suc fuel) stack s = if Stack.is_empty stack then ok s else do
      (t, stack1) ← Stack.pop stack
      elim t [
        | invalid ↦ faults
        | node l a r ↦
            let (s', stop) = fun s a in
            if stop then ok s' else do
              stack2 ← push_valid stack1 r
              stack3 ← push_valid stack2 l
              preorder_loop fuel stack3 s'
      ]

    -- `preorderTraversalV2`
    unfoldable pub preorder_v2 : ℕ → Tree A → S → Outcome S
    unfolding preorder_loop valid
    preorder_v2 fuel t s =
        if valid t
        then (do stack ← Stack.construct; stack1 ← Stack.push stack t; preorder_loop fuel stack1 s)
        else ok s

    -- the second loop, which visits what `stack2` holds
    unfoldable pub empty_loop : ℕ → Stack (Tree A) → S → Outcome S
    empty_loop zero stack2 s = diverges
    empty_loop (suc fuel) stack2 s = if Stack.is_empty stack2 then ok s else do
      (t, rest) ← Stack.pop stack2
      elim t [
        | invalid ↦ faults
        | node l a r ↦
            let (s', stop) = fun s a in
            let next = empty_loop fuel rest s' in if stop then ok s' else next
      ]

    -- `postorderTraversalV2`
    unfoldable pub postorder_v2 : ℕ → Tree A → S → Outcome S
    unfolding fill_loop empty_loop valid
    postorder_v2 fuel t s =
        if valid t
        then (do
          empty1 ← Stack.construct
          empty2 ← Stack.construct
          stack1 ← Stack.push empty1 t
          stack2 ← fill_loop fuel stack1 empty2
          empty_loop fuel stack2 s)
        else ok s
