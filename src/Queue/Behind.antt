-- ===== src/Queue/Behind.antt =====
-- The queue (Queue.hpp) holds a list: `pushBack`.
use learn_space.Base.{
  Ptr, ◌<◌, ◌≡◌, ◌≢◌, refl, sym, ap, ◌∙◌, true, List, [], ◌∷◌, length, length-map, ◌++◌, le→leb, ok,
  arith, eq→==, ne→==,
}
use mathlib.Core.Path.{subst}
use learn_space.Base.Word.{add_word}
use learn_space.Vector.{max_size}
use learn_space.Nodes.Linked.{Linked, Stores}
use learn_space.Nodes.Behind.{last_of, pushed, pushed-Stores}
use learn_space.Nodes.{new_node}
use learn_space.Queue.{Queue, push_back}

module _ {ℓ} {T : Type ℓ} where
  push_first :
      (c : Queue T) (t : T)
      → c.size ≡ 0
      → c.tail_node ≡ 0
      → c.live c.head_node ≡ true
      → c.head_node < c.fresh
      → push_back c t ≡ ok (pushed c c.head_node t)
  unfolding push_back new_node
  push_first c t empty none live below =
      simp (empty, none, live, eq→== c.fresh c.fresh refl, ne→== c.fresh c.head_node (omega arith))

  push_behind :
      (c : Queue T) (t : T)
      → c.size < max_size
      → c.tail_node ≢ 0
      → c.live c.tail_node ≡ true
      → c.tail_node < c.fresh
      → push_back c t ≡ ok (pushed c c.tail_node t)
  unfolding push_back new_node
  push_behind c t room some live below = simp (
    ne→== c.tail_node 0 some,
    live,
    eq→== c.fresh c.fresh refl,
    ne→== c.fresh c.tail_node (omega arith),
    le→leb (add_word c.size 1) max_size (omega arith),
  )

  push_back_ok :
      (c : Queue T) (t : T) (ps : List Ptr) (h : Linked c ps)
      → length ps < max_size
      → push_back c t ≡ ok (pushed c h.end t)
  push_back_ok c t [] h room =
      push_first c t h.sized h.at_end h.alive.0 h.below.0
      ∙ ap (λ a. ok (pushed c a t)) (sym h.links.1)
  push_back_ok c t (p ∷ ps) h room =
      let live = last_of (λ q. c.live q ≡ true) c c.head_node (p ∷ ps) h.end h.links h.alive in
      let below = last_of (λ q. q < c.fresh) c c.head_node (p ∷ ps) h.end h.links h.below in
      let at = sym h.at_end in
      let dead = λ (e : c.tail_node ≡ 0). subst (λ q. c.live q ≡ true) (at ∙ e) live in
      push_behind c t (omega (arith, h.sized)) (λ e. absurd (cc (dead e, h.null)))
        (subst (λ q. c.live q ≡ true) at live) (subst (λ q. q < c.fresh) at below)
      ∙ ap (λ a. ok (pushed c a t)) h.at_end

  -- `pushBack` on a queue that holds `xs`, fewer elements than the largest size, returns, and the
  -- queue then holds `xs` and the new element behind them.
  pub push_back-Stores :
      (c : Queue T) (t : T) (xs : List T)
      → Stores c xs
      → length xs < max_size
      → (c' : Queue T) × (push_back c t ≡ ok c') × Stores c' (xs ++ t ∷ [])
  push_back-Stores c t xs h room =
      let l = h.linked in
      let few : length h.nodes < max_size =
        omega (arith, length-map c.value h.nodes, ap length h.entries) in
      (pushed c l.end t, push_back_ok c t h.nodes l few, pushed-Stores c t xs h few)
