-- ===== src/LinkedList/Middle.antt =====
-- `removeAt` of List.hpp takes out the element at a position.
use mathlib.Core.List.{map-append}
use mathlib.Core.Path.{subst}
use learn_space.Base.{
  ◌<◌, ◌≡◌, ◌≢◌, refl, sym, ap, ◌∙◌, true, false, List, [], ◌∷◌, ◌++◌, length, length-append,
  append-nil, map, All, All-right, All-left, All-without, ok, arith, eq→==, ne→==, leb, lt→leb, Ptr,
  update, Distinct-without, NotIn-middle, NotIn, Distinct, All-dead, if◌then◌else◌, ◌==◌,
}
use learn_space.Base.Word.{sub_word}
use learn_space.Nodes.Links.{not_last, Links-after}
use learn_space.Nodes.Linked.{end_of, end_of_middle, Linked, Stores, located}
use learn_space.Nodes.Middle.{before_in, unlink_last, unlink_middle}
use learn_space.LinkedList.Find.{nonzero, find_node_lem}
use learn_space.LinkedList.{LinkedList, remove_at}

module _ {ℓ} {T : Type ℓ} (c : LinkedList T) where
  pub others :
      (xs : List Ptr) (p : Ptr) (ys : List Ptr)
      → Linked c (xs ++ p ∷ ys)
      → NotIn p (c.head_node ∷ (xs ++ ys))
  others xs p ys h = NotIn-middle (c.head_node ∷ xs) ys p h.apart

  -- A node is not the one before it.
  pub before_apart :
      (xs : List Ptr) (p : Ptr) (ys : List Ptr) → Linked c (xs ++ p ∷ ys) → p ≢ c.previous p
  before_apart xs p ys h =
      before_in (λ q. p ≢ q) c.next c.previous c.head_node xs p ys h.end h.links
        (All-left (λ q. p ≢ q) (c.head_node ∷ xs) ys (others xs p ys h))

  pub before_live :
      (xs : List Ptr) (p : Ptr) (ys : List Ptr)
      → Linked c (xs ++ p ∷ ys)
      → c.live (c.previous p) ≡ true
  before_live xs p ys h =
      before_in (λ q. c.live q ≡ true) c.next c.previous c.head_node xs p ys h.end h.links
        (h.alive.0, All-left (λ q. c.live q ≡ true) xs (p ∷ ys) h.alive.1)

  pub inside :
      (xs : List Ptr) (p : Ptr) (ys : List Ptr)
      → Linked c (xs ++ p ∷ ys)
      → leb c.size (length xs) ≡ false
  inside xs p ys h = lt→leb c.size (length xs) (omega (arith, h.sized, length-append xs (p ∷ ys)))

  one_less :
      (xs : List Ptr) (p : Ptr) (ys : List Ptr)
      → Linked c (xs ++ p ∷ ys)
      → sub_word c.size 1 ≡ length (xs ++ ys)
  one_less xs p ys h =
      omega (arith, h.sized, h.small, length-append xs (p ∷ ys), length-append xs ys)

  -- `m_tail` where `p` and what is behind it is taken out.
  pub tail_without :
      (xs : List Ptr) (p : Ptr) (ys : List Ptr)
      → Linked c (xs ++ p ∷ ys)
      → (if c.previous p == c.head_node then 0 else c.previous p) ≡ end_of xs (c.previous p)
  tail_without [] p ys h = rw (eq→== (c.previous p) c.head_node h.links.1) refl
  tail_without (x ∷ xs) p ys h =
      let away : c.head_node ≢ c.previous p =
        before_in (λ q. c.head_node ≢ q) c.next c.previous x xs p ys h.end h.links.2
          (h.apart.0.0, All-left (λ q. c.head_node ≢ q) xs (p ∷ ys) h.apart.0.1) in
      rw (ne→== (c.previous p) c.head_node (λ e. away (sym e))) refl

  remove_last_ok :
      (xs : List Ptr) (p : Ptr) (h : Linked c (xs ++ p ∷ []))
      → remove_at c (length xs)
        ≡ ok (record c {
          live = update c.live p false;
          next = update c.next (c.previous p) 0;
          tail_node = if c.previous p == c.head_node then 0 else c.previous p;
          size = sub_word c.size 1;
        })
  unfolding remove_at
  remove_last_ok xs p h =
      let live = (All-right (λ q. c.live q ≡ true) xs (p ∷ []) h.alive.1).0 in
      let after = Links-after c.next c.previous c.head_node xs p [] h.end h.links in
      let last : c.tail_node ≡ p = h.at_end ∙ end_of_middle xs p [] h.end ∙ after.1 in
      simp (
        inside xs p [] h,
        find_node_lem c xs p [] h,
        last,
        eq→== p p refl,
        live,
        before_live xs p [] h,
        after.0,
        ne→== (c.previous p) p (λ e. before_apart xs p [] h (sym e)),
      )

  pub remove_middle_ok :
      (xs : List Ptr) (p q : Ptr) (ys : List Ptr) (h : Linked c (xs ++ p ∷ q ∷ ys))
      → remove_at c (length xs)
        ≡ ok (record c {
          live = update c.live p false;
          next = update c.next (c.previous p) q;
          previous = update c.previous q (c.previous p);
          size = sub_word c.size 1;
        })
  unfolding remove_at
  remove_middle_ok xs p q ys h =
      let lives = All-right (λ r. c.live r ≡ true) xs (p ∷ q ∷ ys) h.alive.1 in
      let after = Links-after c.next c.previous c.head_node xs p (q ∷ ys) h.end h.links in
      let out = All-right (λ r. p ≢ r) xs (q ∷ ys) (others xs p (q ∷ ys) h).1 in
      let last : c.tail_node ≡ h.end = h.at_end ∙ end_of_middle xs p (q ∷ ys) h.end in
      simp (
        inside xs p (q ∷ ys) h,
        find_node_lem c xs p (q ∷ ys) h,
        last,
        ne→== p h.end (not_last c.next c.previous p q ys h.end after.2 out.0 out.1),
        lives.0,
        lives.1.0,
        before_live xs p (q ∷ ys) h,
        after.0,
        ne→== (c.previous p) p (λ e. before_apart xs p (q ∷ ys) h (sym e)),
        ne→== q 0 (nonzero c h.null q lives.1.0),
      )

  freed_alive :
      (xs : List Ptr) (p : Ptr) (ys : List Ptr)
      → Linked c (xs ++ p ∷ ys)
      → All (λ q. update c.live p false q ≡ true) (c.head_node ∷ (xs ++ ys))
  freed_alive xs p ys h =
      All-dead c.live p (c.head_node ∷ (xs ++ ys))
        (All-without (λ q. c.live q ≡ true) (c.head_node ∷ xs) ys p h.alive) (others xs p ys h)

  freed_null :
      (xs : List Ptr) (p : Ptr) (ys : List Ptr)
      → Linked c (xs ++ p ∷ ys)
      → update c.live p false 0 ≡ false
  freed_null xs p ys h = ground (arith, h.null)

  -- `removeAt` takes out one node and frees it.
  remove_links :
      (xs : List Ptr) (p : Ptr) (ys : List Ptr)
      → Linked c (xs ++ p ∷ ys)
      → (c' : LinkedList T) × (remove_at c (length xs) ≡ ok c')
        × (c'.value ≡ c.value)
        × Linked c' (xs ++ ys)
  remove_links xs p [] h = (
    _,
    remove_last_ok xs p h,
    refl,
    subst (Linked _) (sym (append-nil xs)) (record {
      end = c.previous p;
      links = unlink_last c.next c.previous c.head_node xs p [] h.end h.links h.apart;
      at_end = tail_without xs p [] h;
      sized = one_less xs p [] h ∙ ap length (append-nil xs);
      small = omega (arith, h.small, length-append xs (p ∷ []));
      apart =
          subst (λ l. Distinct (c.head_node ∷ l)) (append-nil xs)
            (Distinct-without (c.head_node ∷ xs) [] p h.apart);
      alive =
          subst (λ l. All (λ q. update c.live p false q ≡ true) (c.head_node ∷ l)) (append-nil xs)
            (freed_alive xs p [] h);
      below = All-left (λ r. r < c.fresh) (c.head_node ∷ xs) (p ∷ []) h.below;
      null = freed_null xs p [] h;
    }),
  )
  remove_links xs p (q ∷ ys) h = (
    _,
    remove_middle_ok xs p q ys h,
    refl,
    record {
      end = h.end;
      links = unlink_middle c.next c.previous c.head_node xs p q ys h.end h.links h.apart;
      at_end = h.at_end ∙ end_of_middle xs p (q ∷ ys) h.end ∙ sym (end_of_middle xs q ys h.end);
      sized = one_less xs p (q ∷ ys) h;
      small = omega (arith, h.small, length-append xs (p ∷ q ∷ ys), length-append xs (q ∷ ys));
      apart = Distinct-without (c.head_node ∷ xs) (q ∷ ys) p h.apart;
      alive = freed_alive xs p (q ∷ ys) h;
      below = All-without (λ r. r < c.fresh) (c.head_node ∷ xs) (q ∷ ys) p h.below;
      null = freed_null xs p (q ∷ ys) h;
    },
  )

module _ {ℓ} {T : Type ℓ} where
  -- `removeAt` at the index of `x` takes it out of the list and leaves the others.
  pub remove_at-Stores :
      (c : LinkedList T) (xs : List T) (x : T) (ys : List T)
      → Stores c (xs ++ x ∷ ys)
      → (c' : LinkedList T) × (remove_at c (length xs) ≡ ok c') × Stores c' (xs ++ ys)
  remove_at-Stores c xs x ys h =
      let (ps, p, qs, l, front, here, back, many) = located xs x ys h in
      let (c', run, values, l') = remove_links c ps p qs l in
      (
        c',
        subst (λ n. remove_at c n ≡ ok c') many run,
        record {
          nodes = ps ++ qs;
          linked = l';
          entries = ap (λ f. map f (ps ++ qs)) values ∙ map-append c.value ps qs ∙ cc (front, back);
        },
      )
