-- ===== src/Queue/Ends.antt =====
-- The queue (Queue.hpp) holds a list: its constructor and `popFront`.
use learn_space.Base.{
  All-dead, Ptr, update, update_self, ℕ, suc, ◌<◌, ◌≡◌, ◌≢◌, refl, sym, ap, ◌∙◌, false, List, [],
  ◌∷◌, length, map, ok, arith, eq→==, ne→==,
}
use learn_space.Base.Word.{word, sub_word}
use learn_space.Nodes.Linked.{Linked, Stores, head_only-Stores}
use learn_space.Nodes.Links.{not_last, next_outside, previous_outside}
use learn_space.Queue.{Queue, construct, pop_front}

one_less : (n : ℕ) → suc n < word → sub_word (suc n) 1 ≡ n
one_less n h = omega arith

module _ {ℓ} {T : Type ℓ} where
  pop_front_links :
      (c : Queue T) (p : Ptr) (ps : List Ptr)
      → Linked c (p ∷ ps)
      → (c' : Queue T) × (pop_front c ≡ ok (c.value p, c')) × (c'.value ≡ c.value) × Linked c' ps
  unfolding pop_front
  pop_front_links c p [] h =
      let first : c.next c.head_node ≡ p = h.links.0 in
      let ended : c.tail_node ≡ p = h.at_end ∙ h.links.2.1 in
      (
        record c {
          live = update c.live p false;
          next = update c.next c.head_node 0;
          tail_node = 0;
          size = sub_word c.size 1;
        },
        simp (h.sized, first, ended, eq→== p p refl, h.alive.0, h.alive.1.0),
        refl,
        record {
          end = c.head_node;
          links = (rw (eq→== c.head_node c.head_node refl), refl);
          at_end = refl;
          sized = ap (λ n. sub_word n 1) h.sized ∙ one_less 0 h.small;
          small = omega arith;
          apart = (tt, tt);
          alive =
              All-dead c.live p (c.head_node ∷ []) (h.alive.0, tt) ((λ e. h.apart.0.0 (sym e)), tt);
          below = (h.below.0, tt);
          null = ground (arith, h.null);
        },
      )
  pop_front_links c p (q ∷ ps) h =
      let first : c.next c.head_node ≡ p = h.links.0 in
      let second : c.next p ≡ q = h.links.2.0 in
      let away : p ≢ c.tail_node = λ e.
        not_last c.next c.previous p q ps h.end h.links.2.2 h.apart.1.0.0 h.apart.1.0.1
          (e ∙ h.at_end) in
      (
        record c {
          live = update c.live p false;
          next = update c.next c.head_node q;
          previous = update c.previous q c.head_node;
          size = sub_word c.size 1;
        },
        simp (
          ne→== c.size 0 (omega (arith, h.sized)),
          first,
          ne→== p c.tail_node away,
          second,
          h.alive.0,
          h.alive.1.0,
          h.alive.1.1.0,
        ),
        refl,
        record {
          end = h.end;
          links = (
            update_self c.next c.head_node q refl,
            update_self c.previous q c.head_node refl,
            next_outside c.next (update c.previous q c.head_node) c.head_node q q ps h.end
                (previous_outside c.next c.previous q c.head_node q ps h.end h.links.2.2
                  h.apart.1.1.0)
                h.apart.0.1.0 h.apart.0.1.1,
          );
          at_end = h.at_end;
          sized = ap (λ n. sub_word n 1) h.sized ∙ one_less (length (q ∷ ps)) h.small;
          small = omega arith;
          apart = ((h.apart.0.1), h.apart.1.1);
          alive =
              All-dead c.live p (c.head_node ∷ q ∷ ps) (h.alive.0, h.alive.1.1)
                ((λ e. h.apart.0.0 (sym e)), h.apart.1.0);
          below = (h.below.0, h.below.1.1);
          null = ground (arith, h.null);
        },
      )

  -- `popFront` on a queue that holds `x` and then `xs` returns `x`, and the queue then holds `xs`.
  pub pop_front-Stores :
      (c : Queue T) (x : T) (xs : List T)
      → Stores c (x ∷ xs)
      → (c' : Queue T) × (pop_front c ≡ ok (x, c')) × Stores c' xs
  pop_front-Stores c x xs h = go h.nodes h.linked h.entries
    where
      go :
          (ps : List Ptr)
          → Linked c ps
          → map c.value ps ≡ x ∷ xs
          → (c' : Queue T) × (pop_front c ≡ ok (x, c')) × Stores c' xs
      go [] l e = absurd (grind arith)
      go (p ∷ ps) l e =
          let r = pop_front_links c p ps l in
          (
            r.0,
            r.1 ∙ ap (λ y. ok (y, r.0)) cc,
            record { nodes = ps; linked = r.3; entries = ap (λ f. map f ps) r.2 ∙ cc },
          )

  -- A new queue is empty.
  pub construct-Stores : (t : T) → Stores (construct t) []
  unfolding construct
  construct-Stores t = head_only-Stores t
