-- ===== src/LinkedList/Ends.antt =====
-- `append` of List.hpp, behind the last element.
use learn_space.Base.{
  ◌+◌, ◌<◌, ◌≡◌, refl, true, List, [], ◌∷◌, ◌++◌, length, ok, arith, eq→==, ne→==, ltb, ltb→lt,
  Bool-cases, inl, inr, if◌then◌else◌, lt→leb, le→leb, Ptr,
}
use learn_space.Base.Word.{add_word}
use learn_space.Vector.{max_size}
use learn_space.Nodes.{new_node}
use learn_space.Nodes.Linked.{Linked, Stores, size-Stores, head_only-Stores}
use learn_space.Nodes.Behind.{last_of, pushed, pushed-Stores}
use learn_space.LinkedList.{LinkedList, construct, append}

module _ {ℓ} {T : Type ℓ} where
  append_full : (c : LinkedList T) (t : T) → add_word c.size 1 ≡ max_size → append c t ≡ ok c
  unfolding append
  append_full c t full = rw (le→leb max_size (add_word c.size 1) (omega arith)) refl

  append_ok :
      (c : LinkedList T) (t : T) (ps : List Ptr) (h : Linked c ps)
      → length ps + 1 < max_size
      → append c t ≡ ok (pushed c h.end t)
  unfolding append new_node
  append_ok c t [] h room = simp (
    h.sized,
    h.alive.0,
    eq→== c.fresh c.fresh refl,
    ne→== c.fresh c.head_node (omega (arith, h.below.0)),
    h.links.1,
  )
  append_ok c t (p ∷ ps) h room =
      let live = last_of (λ q. c.live q ≡ true) c c.head_node (p ∷ ps) h.end h.links h.alive in
      let below = last_of (λ q. q < c.fresh) c c.head_node (p ∷ ps) h.end h.links h.below in
      simp (
        h.at_end,
        live,
        eq→== c.fresh c.fresh refl,
        ne→== c.fresh h.end (omega (arith, below)),
        ne→== c.size 0 (omega (arith, h.sized)),
        lt→leb max_size (add_word c.size 1) (omega (arith, h.sized)),
      )

  -- `append` to a list that holds `xs`, fewer than the largest size, returns; the list then holds
  -- `xs` and the new element behind them, or `xs` alone if they were one less than the largest size.
  pub append-Stores :
      (c : LinkedList T) (t : T) (xs : List T)
      → Stores c xs
      → length xs < max_size
      → (c' : LinkedList T) × (append c t ≡ ok c')
        × Stores c' (if ltb (length xs + 1) max_size then xs ++ t ∷ [] else xs)
  append-Stores c t xs h few =
      let many : length h.nodes ≡ length xs = omega (arith, h.linked.sized, size-Stores h) in
      elim (Bool-cases (ltb (length xs + 1) max_size)) [
        | inl room ↦
            let less = ltb→lt (length xs + 1) max_size room in
            (
              pushed c h.linked.end t,
              append_ok c t h.nodes h.linked (omega (arith, many)),
              rw room (pushed-Stores c t xs h (omega (arith, many))),
            )
        | inr full ↦ (c, append_full c t (ground (arith, size-Stores h)), rw full h)
      ]

  pub construct-Stores : (t : T) → Stores (construct t) []
  unfolding construct
  construct-Stores t = head_only-Stores t
