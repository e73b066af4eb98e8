-- ===== src/Nodes/Behind.antt =====
-- A new node behind the last one (Queue.hpp, List.hpp).
use learn_space.Base.{
  All-below, All-live, Distinct-behind, NotIn, NotIn-below, Ptr, update, update_self, ◌+◌, ◌<◌, ◌≡◌,
  ◌≢◌, refl, sym, ap, ◌∙◌, true, List, [], ◌∷◌, length, map, length-append, ◌++◌, All, All-append,
  arith, eq→==, ne→==,
}
use mathlib.Core.Path.{subst}
use learn_space.Base.Word.{add_word}
use learn_space.Vector.{max_size}
use learn_space.Nodes.Links.{Links, next_outside, previous_outside, linked_behind}
use learn_space.Nodes.Linked.{end_of, Linked, Stores}
use learn_space.Nodes.{Chained}

end_behind : (ps : List Ptr) (u : Ptr) → u ≡ end_of (ps ++ u ∷ []) u
end_behind [] u = refl
end_behind (p ∷ ps) u = refl

module _ {ℓ κ} {T : Type ℓ} (P : Ptr → Type κ) (c : Chained T) where
  -- Any property of the head and the nodes is one of the last of them.
  pub last_of :
      (a : Ptr) (ps : List Ptr) (t : Ptr) → Links c.next c.previous a ps t → All P (a ∷ ps) → P t
  last_of a [] t l h = subst P (sym l.1) h.0
  last_of a (p ∷ ps) t l h = last_of p ps t l.2 h.1

module _ {ℓ} {T : Type ℓ} where
  pub entries_behind :
      (f : Ptr → T) (u : Ptr) (v : T) (ps : List Ptr)
      → NotIn u ps
      → map (update f u v) (ps ++ u ∷ []) ≡ map f ps ++ v ∷ []
  entries_behind f u v [] out = rw (eq→== u u refl) refl
  entries_behind f u v (p ∷ ps) out =
      rw (ne→== u p out.0) (ap (◌∷◌ (f p)) (entries_behind f u v ps out.1))

module _ {ℓ} {T : Type ℓ} where
  -- The queue with a new node for `t` behind `last`.
  abbrev pub pushed : Chained T → Ptr → T → Chained T
  pushed c last t = record c {
    live = update c.live c.fresh true;
    value = update c.value c.fresh t;
    next = update (update c.next c.fresh 0) last c.fresh;
    previous = update (update c.previous c.fresh 0) c.fresh last;
    fresh = c.fresh + 1;
    tail_node = c.fresh;
    size = add_word c.size 1;
  }

  pub pushed-Linked :
      (c : Chained T) (t : T) (ps : List Ptr) (h : Linked c ps)
      → length ps < max_size
      → Linked (pushed c h.end t) (ps ++ c.fresh ∷ [])
  pushed-Linked c t ps h room =
      let u = c.fresh in
      let out = NotIn-below u ps h.below.1 in
      let ne : u ≢ c.head_node = omega (arith, h.below.0) in
      record {
        end = u;
        links =
            linked_behind (update c.next u 0) (update c.previous u 0) u c.head_node ps h.end
              (previous_outside (update c.next u 0) c.previous u 0 c.head_node ps h.end
                (next_outside c.next c.previous u 0 c.head_node ps h.end h.links ne out) out)
              (update_self c.next u 0 refl) h.apart ne out;
        at_end = end_behind ps u;
        sized = omega (arith, h.sized, length-append ps (u ∷ []));
        small = omega (arith, length-append ps (u ∷ []));
        apart = Distinct-behind (c.head_node ∷ ps) u h.apart (ne, out);
        alive =
            All-append (λ q. update c.live u true q ≡ true) (c.head_node ∷ ps) (u ∷ [])
              (All-live c.live u (c.head_node ∷ ps) h.alive) (update_self c.live u true refl, tt);
        below =
            All-append (λ q. q < u + 1) (c.head_node ∷ ps) (u ∷ [])
              (All-below u (c.head_node ∷ ps) h.below) (omega arith, tt);
        null = rw (ne→== u 0 (omega (arith, h.below.0))) h.null;
      }

  -- With the new node there is one element more.
  pub pushed-Stores :
      (c : Chained T) (t : T) (xs : List T) (h : Stores c xs)
      → length h.nodes < max_size
      → Stores (pushed c h.linked.end t) (xs ++ t ∷ [])
  pushed-Stores c t xs h few = record {
    nodes = h.nodes ++ c.fresh ∷ [];
    linked = pushed-Linked c t h.nodes h.linked few;
    entries =
        entries_behind c.value c.fresh t h.nodes (NotIn-below c.fresh h.nodes h.linked.below.1)
        ∙ ap (λ l. l ++ t ∷ []) h.entries;
  }
