-- ===== src/LinkedList/Search.antt =====
-- `removeOne` of List.hpp with its default arguments: from the first element, one only.
use learn_space.Base.{
  ℕ, zero, suc, ◌+◌, ◌<◌, ◌≡◌, refl, sym, ap, ◌∙◌, true, false, Bool, List, [], ◌∷◌, ◌++◌, map,
  length, length-append, All, All-left, All-right, ok, faults, arith, eq→==, ne→==, lt→leb, Ptr,
  update,
}
use learn_space.Base.Word.{add_word, sub_word}
use learn_space.Vector.{max_size}
use learn_space.Nodes.{new_node}
use learn_space.Nodes.Links.{Links, Links-after}
use learn_space.Nodes.Linked.{Linked, Stores, located}
use learn_space.LinkedList.Find.{nonzero, find_node-get_elem?}
use learn_space.LinkedList.Middle.{before_live, remove_middle_ok, remove_at-Stores}
use learn_space.LinkedList.{LinkedList, remove_loop, remove_one, append, remove_at}

module _ {ℓ} {T : Type ℓ} (same : T → T → Bool) (t : T) (c : LinkedList T) where
  -- The loop passes over what is not equal to `t`.
  passes :
      (fuel : ℕ) (a : Ptr) (xs : List Ptr) (p : Ptr) (ys : List Ptr) (e : Ptr)
      → Links c.next c.previous a (xs ++ p ∷ ys) e
      → All (λ q. c.live q ≡ true) xs
      → c.live 0 ≡ false
      → All (λ q. same (c.value q) t ≡ false) xs
      → remove_loop same c (fuel + length xs) t true (c.next a) ≡ remove_loop same c fuel t true p
  unfolding remove_loop
  passes fuel a [] p ys e l h null other =
      let f0 : fuel + 0 ≡ fuel = omega arith in rw (f0, l.0) refl
  passes fuel a (x ∷ xs) p ys e l h null other =
      let f1 : fuel + suc (length xs) ≡ suc (fuel + length xs) = omega arith in
      rw (f1, l.0, ne→== x 0 (nonzero c null x h.0), h.0, other.0)
        (passes fuel x xs p ys e l.2 h.1 null other.1)

  start_first :
      (ps : List Ptr) (p : Ptr) (qs : List Ptr)
      → Linked c (ps ++ p ∷ qs)
      → remove_one same c t 0 true ≡ remove_loop same c (suc c.size) t true (c.next c.head_node)
  unfolding remove_one
  start_first [] p qs h =
      let (found, live) = find_node-get_elem? c (p ∷ qs) 0 p h refl in
      rw (lt→leb c.size 0 (omega (arith, h.sized)), found, h.links.0) refl
  start_first (x ∷ xs) p qs h =
      let (found, live) = find_node-get_elem? c (x ∷ (xs ++ p ∷ qs)) 0 x h refl in
      rw (lt→leb c.size 0 (omega (arith, h.sized)), found, h.links.0) refl

  reaches :
      (ps : List Ptr) (p : Ptr) (qs : List Ptr)
      → Linked c (ps ++ p ∷ qs)
      → All (λ q. same (c.value q) t ≡ false) ps
      → remove_one same c t 0 true ≡ remove_loop same c (suc (suc (length qs))) t true p
  reaches ps p qs h other =
      let size : suc c.size ≡ suc (suc (length qs)) + length ps =
        omega (arith, h.sized, length-append ps (p ∷ qs)) in
      start_first ps p qs h
      ∙ ap (λ f. remove_loop same c f t true (c.next c.head_node)) size
      ∙ passes (suc (suc (length qs))) c.head_node ps p qs h.end h.links
          (All-left (λ q. c.live q ≡ true) ps (p ∷ qs) h.alive.1) h.null other

  takes_middle :
      (ps : List Ptr) (p q : Ptr) (qs : List Ptr) (f : ℕ)
      → Linked c (ps ++ p ∷ q ∷ qs)
      → same (c.value p) t ≡ true
      → remove_loop same c (suc f) t true p ≡ remove_at c (length ps)
  unfolding remove_loop
  takes_middle ps p q qs f h equal =
      let lives = All-right (λ r. c.live r ≡ true) ps (p ∷ q ∷ qs) h.alive.1 in
      let after = Links-after c.next c.previous c.head_node ps p (q ∷ qs) h.end h.links in
      simp
        (
          ne→== p 0 (nonzero c h.null p lives.0),
          lives.0,
          after.0,
          equal,
          before_live c ps p (q ∷ qs) h,
          ne→== q 0 (nonzero c h.null q lives.1.0),
          lives.1.0,
        )
        (sym (remove_middle_ok c ps p q qs h))

  -- `m_tail` is left as it was, a freed node.
  abbrev stale : Ptr → LinkedList T
  stale p = record c {
    live = update c.live p false;
    next = update c.next (c.previous p) 0;
    size = sub_word c.size 1;
  }

  takes_last :
      (ps : List Ptr) (p : Ptr) (f : ℕ)
      → Linked c (ps ++ p ∷ [])
      → same (c.value p) t ≡ true
      → remove_loop same c (suc f) t true p ≡ ok (stale p)
  unfolding remove_loop
  takes_last ps p f h equal =
      let live = (All-right (λ r. c.live r ≡ true) ps (p ∷ []) h.alive.1).0 in
      let after = Links-after c.next c.previous c.head_node ps p [] h.end h.links in
      simp (ne→== p 0 (nonzero c h.null p live), live, after.0, equal, before_live c ps p [] h)

  append-stale :
      (x : Ptr) (ps : List Ptr) (p : Ptr) (u : T)
      → Linked c (x ∷ (ps ++ p ∷ []))
      → length (ps ++ p ∷ []) + 1 < max_size
      → append (stale p) u ≡ faults
  unfolding append new_node
  append-stale x ps p u h room =
      let size : sub_word c.size 1 ≡ suc (length ps) =
        omega (arith, h.sized, length-append ps (p ∷ [])) in
      let last : c.tail_node ≡ p =
        h.at_end ∙ (Links-after c.next c.previous c.head_node (x ∷ ps) p [] h.end h.links).1 in
      let below = (All-right (λ r. r < c.fresh) ps (p ∷ []) h.below.1.1).0 in
      simp (
        size,
        ne→== (suc (length ps)) 0 (omega arith),
        lt→leb max_size (add_word (suc (length ps)) 1) (omega (arith, length-append ps (p ∷ []))),
        last,
        ne→== c.fresh p (omega (arith, below)),
        eq→== p p refl,
      )

module _ {ℓ} {T : Type ℓ} (same : T → T → Bool) (t : T) where
  -- The values of the nodes before are those of the elements before.
  others_differ :
      (f : Ptr → T) (ps : List Ptr) (xs : List T)
      → map f ps ≡ xs
      → All (λ x. same x t ≡ false) xs
      → All (λ p. same (f p) t ≡ false) ps
  others_differ f [] xs e h = tt
  others_differ f (p ∷ ps) [] e h = absurd (cc e)
  others_differ f (p ∷ ps) (x ∷ xs) e h =
      (ap (λ v. same v t) (cc e) ∙ h.0, others_differ f ps xs (cc e) h.1)

  same_removal :
      (c : LinkedList T) (y : T) (ys : List T) (ps : List Ptr) (p : Ptr) (qs : List Ptr)
      → Linked c (ps ++ p ∷ qs)
      → map c.value qs ≡ y ∷ ys
      → All (λ q. same (c.value q) t ≡ false) ps
      → same (c.value p) t ≡ true
      → remove_one same c t 0 true ≡ remove_at c (length ps)
  same_removal c y ys ps p [] h e other equal = absurd (cc e)
  same_removal c y ys ps p (q ∷ qs) h e other equal =
      reaches same t c ps p (q ∷ qs) h other
      ∙ takes_middle same t c ps p q qs (suc (length (q ∷ qs))) h equal

  -- `removeOne` from the first element takes out the first element that is equal to `t`, where it is
  -- not the last of the list, and leaves the others.
  pub remove_one-Stores :
      (c : LinkedList T) (xs : List T) (x y : T) (ys : List T)
      → Stores c (xs ++ x ∷ y ∷ ys)
      → All (λ z. same z t ≡ false) xs
      → same x t ≡ true
      → (c' : LinkedList T) × (remove_one same c t 0 true ≡ ok c') × Stores c' (xs ++ y ∷ ys)
  remove_one-Stores c xs x y ys h other equal =
      let (ps, p, qs, l, front, here, back, many) = located xs x (y ∷ ys) h in
      let (c', run, after) = remove_at-Stores c xs x (y ∷ ys) h in
      let alike =
        same_removal c y ys ps p qs l back (others_differ c.value ps xs front other)
          (ap (λ v. same v t) here ∙ equal) in
      (c', alike ∙ ap (remove_at c) many ∙ run, after)

  -- `removeOne` of the last element of a list with others before it, none equal to `t`, leaves
  -- `m_tail` on the node it has freed, so that an `append` that follows writes to a freed node.
  pub remove_one_stale :
      (c : LinkedList T) (z : T) (xs : List T) (x u : T)
      → Stores c (z ∷ (xs ++ x ∷ []))
      → length (xs ++ x ∷ []) + 1 < max_size
      → All (λ y. same y t ≡ false) (z ∷ xs)
      → same x t ≡ true
      → (c' : LinkedList T) × (remove_one same c t 0 true ≡ ok c') × (append c' u ≡ faults)
  remove_one_stale c z xs x u h room other equal =
      let (ps, p, qs, l, front, here, back, many) = located (z ∷ xs) x [] h in
      go ps p qs l front (ap (λ v. same v t) here ∙ equal) back
        (omega (arith, many, length-append xs (x ∷ [])))
        (others_differ c.value ps (z ∷ xs) front other)
    where
      go :
          (ps : List Ptr) (p : Ptr) (qs : List Ptr)
          → Linked c (ps ++ p ∷ qs)
          → map c.value ps ≡ z ∷ xs
          → same (c.value p) t ≡ true
          → map c.value qs ≡ []
          → length ps + 1 < max_size
          → All (λ q. same (c.value q) t ≡ false) ps
          → (c' : LinkedList T) × (remove_one same c t 0 true ≡ ok c') × (append c' u ≡ faults)
      go [] p qs l front eq back few other = absurd (cc front)
      go (q ∷ ps) p (r ∷ qs) l front eq back few other = absurd (cc back)
      go (q ∷ ps) p [] l front eq back few other = (
        stale same t c p,
        reaches same t c (q ∷ ps) p [] l other ∙ takes_last same t c (q ∷ ps) p (suc zero) l eq,
        append-stale same t c q ps p u l (omega (arith, few, length-append ps (p ∷ []))),
      )
