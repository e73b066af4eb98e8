-- ===== src/LinkedList/Front.antt =====
-- `insert` of List.hpp at 0, in front of an element.
use learn_space.Base.{
  suc, ◌+◌, ◌<◌, ◌/◌, ◌≡◌, ◌∙◌, refl, true, List, [], ◌∷◌, length, map, ok, arith, eq→==, ne→==,
  lt→leb, lt→ltb, Ptr, update,
}
use learn_space.Base.Word.{add_word}
use learn_space.Vector.{max_size}
use learn_space.Nodes.{new_node}
use learn_space.Nodes.Linked.{Linked, Stores, size-Stores}
use learn_space.LinkedList.Find.{nonzero}
use learn_space.LinkedList.{LinkedList, find_node, find_loop, insert, at}

module _ {ℓ} {T : Type ℓ} (c : LinkedList T) (t : T) where
  -- The new node leads to `p`, and the head still does.
  abbrev put_front : Ptr → LinkedList T
  put_front p = record c {
    live = update c.live c.fresh true;
    value = update c.value c.fresh t;
    next = update (update c.next c.fresh 0) c.fresh p;
    previous = update (update (update c.previous c.fresh 0) p c.fresh) c.fresh c.head_node;
    fresh = c.fresh + 1;
    size = add_word c.size 1;
  }

  insert_front_ok :
      (p : Ptr) (ps : List Ptr)
      → Linked c (p ∷ ps)
      → length (p ∷ ps) + 1 < max_size
      → insert c 0 t ≡ ok (put_front p)
  unfolding insert new_node
  insert_front_ok p ps h room =
      let u = c.fresh in
      simp (
        lt→leb (add_word c.size 1) 0 (omega (arith, h.sized)),
        lt→leb max_size (add_word c.size 1) (omega (arith, h.sized)),
        ne→== u c.head_node (omega (arith, h.below.0)),
        h.alive.0,
        h.links.0,
        ne→== p 0 (nonzero c h.null p h.alive.1.0),
        ne→== u p (omega (arith, h.below.1.0)),
        h.alive.1.0,
        eq→== u u refl,
      )

  at_front :
      (p : Ptr) (ps : List Ptr)
      → Linked c (p ∷ ps)
      → length (p ∷ ps) + 1 < max_size
      → at (put_front p) 0 ≡ ok (c.value p)
  unfolding at find_node find_loop
  at_front p ps h room =
      let u = c.fresh in
      let more : add_word c.size 1 ≡ suc (suc (length ps)) = omega (arith, h.sized) in
      simp (
        more,
        lt→leb (suc (suc (length ps))) 0 (omega arith),
        lt→ltb 0 (suc (suc (length ps)) / 2) (omega arith),
        ne→== u c.head_node (omega (arith, h.below.0)),
        ne→== u p (omega (arith, h.below.1.0)),
        h.alive.0,
        h.links.0,
        ne→== p 0 (nonzero c h.null p h.alive.1.0),
        h.alive.1.0,
      )

module _ {ℓ} {T : Type ℓ} where
  -- `insert` at 0 in a list that holds an element, two fewer than the largest size or less, leaves the
  -- head on the old first node: the size is one more, and `at` 0 still gives the old first element.
  pub insert_front_lost :
      (c : LinkedList T) (t x : T) (xs : List T)
      → Stores c (x ∷ xs)
      → length (x ∷ xs) + 1 < max_size
      → (c' : LinkedList T) × (insert c 0 t ≡ ok c') × (c'.size ≡ c.size + 1) × (at c' 0 ≡ ok x)
  insert_front_lost c t x xs h room = go h.nodes h.linked h.entries
    where
      go :
          (ps : List Ptr)
          → Linked c ps
          → map c.value ps ≡ x ∷ xs
          → (c' : LinkedList T) × (insert c 0 t ≡ ok c') × (c'.size ≡ c.size + 1) × (at c' 0 ≡ ok x)
      go [] l e = absurd (cc e)
      go (p ∷ ps) l e =
          let few : length (p ∷ ps) + 1 < max_size = omega (arith, l.sized, size-Stores h) in
          (
            put_front c t p,
            insert_front_ok c t p ps l few,
            omega (arith, l.sized),
            at_front c t p ps l few ∙ cc e,
          )
