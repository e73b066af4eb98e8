-- ===== src/LinkedList/Insert.antt =====
-- `insert` of List.hpp: in the middle, behind the last element, and in front of the first.
use mathlib.Core.Path.{subst}
use learn_space.Base.{
  suc, ◌+◌, ◌<◌, ◌≡◌, ◌≢◌, ◌⊎◌, refl, sym, ap, ◌∙◌, true, List, [], ◌∷◌, ◌++◌, length,
  length-append, append-nil, map, All-right, All-left, All-insert, ok, arith, eq→==, ne→==, lt→leb,
  Ptr, update, NotIn, NotIn-below, All-below, All-live, update_self,
}
use learn_space.Base.Word.{add_word}
use learn_space.Vector.{max_size}
use learn_space.Nodes.{new_node}
use learn_space.Nodes.Links.{next_outside, previous_outside}
use learn_space.Nodes.Linked.{end_of_middle, Linked, Stores, size-Stores, located}
use learn_space.Nodes.Behind.{last_of, pushed, pushed-Stores}
use learn_space.Nodes.Middle.{before_in, link_middle, Distinct-insert, entries_between}
use learn_space.LinkedList.Find.{find_node_lem}
use learn_space.LinkedList.{LinkedList, insert}

module _ {ℓ} {T : Type ℓ} (c : LinkedList T) (t : T) where
  -- A new node, not linked yet, is none of the others and changes nothing for them.
  new_node-Linked : (ps : List Ptr) → Linked c ps → Linked (new_node c t) ps
  unfolding new_node
  new_node-Linked ps h =
      let out = NotIn-below c.fresh ps h.below.1 in
      let ne : c.fresh ≢ c.head_node = omega (arith, h.below.0) in
      record {
        end = h.end;
        links =
            previous_outside (update c.next c.fresh 0) c.previous c.fresh 0 c.head_node ps h.end
              (next_outside c.next c.previous c.fresh 0 c.head_node ps h.end h.links ne out) out;
        at_end = h.at_end;
        sized = h.sized;
        small = h.small;
        apart = h.apart;
        alive = All-live c.live c.fresh (c.head_node ∷ ps) h.alive;
        below = All-below c.fresh (c.head_node ∷ ps) h.below;
        null = rw (ne→== c.fresh 0 (omega (arith, h.below.0))) h.null;
      }

  -- The list with a new node before `q`.
  abbrev put_before : Ptr → LinkedList T
  put_before q =
      let b = update c.previous c.fresh 0 q in
      record c {
        live = update c.live c.fresh true;
        value = update c.value c.fresh t;
        next = update (update (update c.next c.fresh 0) b c.fresh) c.fresh q;
        previous = update (update (update c.previous c.fresh 0) c.fresh b) q c.fresh;
        fresh = c.fresh + 1;
        size = add_word c.size 1;
      }

  put_before-Linked :
      (xs : List Ptr) (q : Ptr) (ys : List Ptr)
      → Linked c (xs ++ q ∷ ys)
      → length (xs ++ q ∷ ys) < max_size
      → Linked (put_before q) (xs ++ c.fresh ∷ q ∷ ys)
  unfolding new_node
  put_before-Linked xs q ys h room =
      let n = new_node-Linked (xs ++ q ∷ ys) h in
      let u = c.fresh in
      let out : NotIn u (c.head_node ∷ (xs ++ q ∷ ys)) =
        NotIn-below u (c.head_node ∷ (xs ++ q ∷ ys)) h.below in
      record {
        end = n.end;
        links =
            link_middle (update c.next u 0) (update c.previous u 0) u c.head_node xs q ys n.end
              n.links n.apart out;
        at_end = n.at_end ∙ end_of_middle xs q ys n.end ∙ sym (end_of_middle xs u (q ∷ ys) n.end);
        sized = omega (arith, h.sized, length-append xs (q ∷ ys), length-append xs (u ∷ q ∷ ys));
        small = omega (arith, length-append xs (q ∷ ys), length-append xs (u ∷ q ∷ ys));
        apart = Distinct-insert u (c.head_node ∷ xs) (q ∷ ys) h.apart out;
        alive =
            All-insert (λ r. update c.live u true r ≡ true) (c.head_node ∷ xs) (q ∷ ys) u
              (update_self c.live u true refl) n.alive;
        below = All-insert (λ r. r < u + 1) (c.head_node ∷ xs) (q ∷ ys) u (omega arith) n.below;
        null = n.null;
      }

  insert_before_ok :
      (x : Ptr) (xs : List Ptr) (q : Ptr) (ys : List Ptr)
      → Linked c (x ∷ (xs ++ q ∷ ys))
      → length (x ∷ (xs ++ q ∷ ys)) + 1 < max_size
      → insert c (length (x ∷ xs)) t ≡ ok (put_before q)
  unfolding insert new_node
  insert_before_ok x xs q ys h room =
      let n = new_node-Linked (x ∷ (xs ++ q ∷ ys)) h in
      let u = c.fresh in
      let pos = suc (length xs) in
      let size = length-append xs (q ∷ ys) in
      let found = find_node_lem (new_node c t) (x ∷ xs) q ys n in
      let lives = All-right (λ r. update c.live u true r ≡ true) (x ∷ xs) (q ∷ ys) n.alive.1 in
      let before =
        before_in (λ r. update c.live u true r ≡ true) (update c.next u 0) (update c.previous u 0)
          c.head_node (x ∷ xs) q ys n.end n.links
          (n.alive.0, All-left (λ r. update c.live u true r ≡ true) (x ∷ xs) (q ∷ ys) n.alive.1) in
      simp (
        lt→leb (add_word c.size 1) pos (omega (arith, h.sized)),
        lt→leb max_size (add_word c.size 1) (omega (arith, h.sized)),
        ne→== pos 0 (omega arith),
        ne→== pos c.size (omega (arith, h.sized)),
        found,
        lives.0,
        before,
        eq→== u u refl,
      )

  insert_behind_ok :
      (ps : List Ptr) (h : Linked c ps)
      → length ps + 1 < max_size
      → insert c (length ps) t ≡ ok (pushed c h.end t)
  unfolding insert new_node
  insert_behind_ok [] h room =
      let ne : c.fresh ≢ c.head_node = omega (arith, h.below.0) in
      simp (
        h.sized,
        h.alive.0,
        eq→== c.fresh c.fresh refl,
        ne→== c.fresh c.head_node ne,
        h.links.0,
        h.links.1,
      )
  insert_behind_ok (p ∷ ps) h room =
      let live = last_of (λ q. c.live q ≡ true) c c.head_node (p ∷ ps) h.end h.links h.alive in
      let below = last_of (λ q. q < c.fresh) c c.head_node (p ∷ ps) h.end h.links h.below in
      let pos = suc (length ps) in
      simp (
        lt→leb (add_word c.size 1) pos (omega (arith, h.sized)),
        lt→leb max_size (add_word c.size 1) (omega (arith, h.sized)),
        ne→== pos 0 (omega arith),
        eq→== pos c.size (omega (arith, h.sized)),
        h.at_end,
        live,
        eq→== c.fresh c.fresh refl,
        ne→== c.fresh h.end (omega (arith, below)),
      )

module _ {ℓ} {T : Type ℓ} (c : LinkedList T) (t : T) where
  insert_between :
      (x : T) (xs : List T) (y : T) (ys : List T) (ps : List Ptr) (q : Ptr) (qs : List Ptr)
      → Linked c (ps ++ q ∷ qs)
      → map c.value ps ≡ x ∷ xs
      → c.value q ≡ y
      → map c.value qs ≡ ys
      → length (ps ++ q ∷ qs) + 1 < max_size
      → (c' : LinkedList T) × (insert c (length ps) t ≡ ok c') × Stores c' (x ∷ (xs ++ t ∷ y ∷ ys))
  insert_between x xs y ys [] q qs l front here back room = absurd (cc front)
  insert_between x xs y ys (p ∷ ps) q qs l front here back room = (
    put_before c t q,
    insert_before_ok c t p ps q qs l room,
    record {
      nodes = p ∷ (ps ++ c.fresh ∷ q ∷ qs);
      linked = put_before-Linked c t (p ∷ ps) q qs l (omega (arith, room));
      entries =
          entries_between c.value c.fresh t (p ∷ ps) (q ∷ qs)
            (NotIn-below c.fresh (p ∷ (ps ++ q ∷ qs)) l.below.1)
          ∙ cc (front, here, back);
    },
  )

module _ {ℓ} {T : Type ℓ} where
  -- `insert` behind `xs` in a list that holds `xs` and then `ys`, at least two fewer than the largest
  -- size, puts the new element between them, if `xs` is not empty or the list is.
  pub insert-Stores :
      (c : LinkedList T) (t : T) (xs ys : List T)
      → Stores c (xs ++ ys)
      → length (xs ++ ys) + 1 < max_size
      → (0 < length xs) ⊎ (ys ≡ [])
      → (c' : LinkedList T) × (insert c (length xs) t ≡ ok c') × Stores c' (xs ++ t ∷ ys)
  insert-Stores c t xs [] h room fits =
      let whole = subst (Stores c) (append-nil xs) h in
      let l = whole.linked in
      let many : length whole.nodes ≡ length xs = omega (arith, l.sized, size-Stores whole) in
      let few : length whole.nodes + 1 < max_size =
        omega (arith, many, ap length (append-nil xs)) in
      (
        pushed c l.end t,
        subst (λ n. insert c n t ≡ ok (pushed c l.end t)) many
            (insert_behind_ok c t whole.nodes l few),
        pushed-Stores c t xs whole (omega (arith, few)),
      )
  insert-Stores c t [] (y ∷ ys) h room fits = absurd (grind (arith, fits))
  insert-Stores c t (x ∷ xs) (y ∷ ys) h room fits =
      let (ps, q, qs, l, front, here, back, many) = located (x ∷ xs) y ys h in
      let fit : length (ps ++ q ∷ qs) + 1 < max_size = omega (arith, l.sized, size-Stores h) in
      subst (λ n. (c' : LinkedList T) × (insert c n t ≡ ok c') × Stores c' (x ∷ (xs ++ t ∷ y ∷ ys)))
        many (insert_between c t x xs y ys ps q qs l front here back fit)
