-- ===== src/Nodes/Linked.antt =====
-- What it means that linked nodes hold a list (Queue.hpp, List.hpp).
use mathlib.Core.Path.{subst}
use learn_space.Base.{
  sym, ap, ◌∙◌, length-map, map_split, Distinct, Ptr, ◌<◌, ◌≡◌, refl, true, false, List, [], ◌∷◌,
  ◌++◌, length, map, All, arith,
}
use learn_space.Base.Word.{word}
use learn_space.Nodes.Links.{Links}
use learn_space.Nodes.{Chained, head_only}

-- `m_tail`: null where there is no node.
abbrev pub end_of : List Ptr → Ptr → Ptr
end_of [] t = 0
end_of (p ∷ ps) t = t

pub end_of_middle :
    (xs : List Ptr) (p : Ptr) (ys : List Ptr) (t : Ptr) → end_of (xs ++ p ∷ ys) t ≡ t
end_of_middle [] p ys t = refl
end_of_middle (x ∷ xs) p ys t = refl

-- The nodes, from the first to the last one, its end.
pub record Linked {ℓ} {T : Type ℓ} (c : Chained T) (ps : List Ptr) : Type ℓ where
  pub end : Ptr
  pub links : Links c.next c.previous c.head_node ps end
  pub at_end : c.tail_node ≡ end_of ps end
  pub sized : c.size ≡ length ps
  pub small : length ps < word
  pub apart : Distinct (c.head_node ∷ ps)
  pub alive : All (λ p. c.live p ≡ true) (c.head_node ∷ ps)
  pub below : All (λ p. p < c.fresh) (c.head_node ∷ ps)
  pub null : c.live 0 ≡ false

-- The nodes hold `xs`, in their order.
pub record Stores {ℓ} {T : Type ℓ} (c : Chained T) (xs : List T) : Type ℓ where
  pub nodes : List Ptr
  pub linked : Linked c nodes
  pub entries : map c.value nodes ≡ xs

module _ {ℓ} {T : Type ℓ} where
  pub size-Stores : {c : Chained T} {xs : List T} → Stores c xs → c.size ≡ length xs
  size-Stores {c} h = h.linked.sized ∙ sym (length-map c.value h.nodes) ∙ ap length h.entries

  -- The node of an element, between those before and behind.
  pub located :
      {c : Chained T} (xs : List T) (x : T) (ys : List T)
      → Stores c (xs ++ x ∷ ys)
      → (ps : List Ptr) × (p : Ptr) × (qs : List Ptr) × Linked c (ps ++ p ∷ qs)
        × (map c.value ps ≡ xs)
        × (c.value p ≡ x)
        × (map c.value qs ≡ ys)
        × (length ps ≡ length xs)
  located {c} xs x ys h =
      let (ps, p, qs, split, front, here, back) = map_split c.value h.nodes xs ys x h.entries in
      (
        ps,
        p,
        qs,
        subst (Linked c) split h.linked,
        front,
        here,
        back,
        sym (length-map c.value ps) ∙ ap length front,
      )

  -- With the head alone there is no element.
  pub head_only-Stores : (t : T) → Stores (head_only t) []
  unfolding head_only
  head_only-Stores t = record {
    nodes = [];
    linked = record {
      end = 1;
      links = (refl, refl);
      at_end = refl;
      sized = refl;
      small = omega arith;
      apart = (tt, tt);
      alive = (refl, tt);
      below = (omega arith, tt);
      null = refl;
    };
    entries = refl;
  }
