-- ===== src/LinkedList/Swap.antt =====
-- `swap` of List.hpp.
use mathlib.Core.Path.{subst}
use learn_space.Base.{
  ℕ, zero, suc, ◌≡◌, ◌≢◌, refl, sym, ap, ◌∙◌, some, List, [], ◌∷◌, map, set, get_elem?,
  get_elem?-lt, get_elem?-map_inv, ok, arith, eq→==, ne→==, lt→leb, Ptr, update, NotIn, Distinct,
  map-update, get_elem?-mem,
}
use learn_space.Nodes.Linked.{Linked, Stores}
use learn_space.LinkedList.Find.{find_node-get_elem?}
use learn_space.LinkedList.{LinkedList, swap}

module _ {ℓ} {T : Type ℓ} where
  -- A write to one of the nodes is a write to its element.
  map-update_at :
      (f : Ptr → T) (v : T) (ps : List Ptr) (i : ℕ) (p : Ptr)
      → Distinct ps
      → get_elem? ps i ≡ some p
      → map (update f p v) ps ≡ set (map f ps) i v
  map-update_at f v [] i p d e = absurd (cc e)
  map-update_at f v (q ∷ ps) zero p d e =
      let same : p ≡ q = cc e in
      rw (eq→== p q same, map-update f p v ps (subst (λ r. NotIn r ps) (sym same) d.0)) refl
  map-update_at f v (q ∷ ps) (suc i) p d e =
      rw
        (
          ne→== p q (λ s. get_elem?-mem (λ r. q ≢ r) ps i p d.0 e (sym s)),
          map-update_at f v ps i p d.1 e,
        )
        refl

  swap_ok :
      (c : LinkedList T) (ps : List Ptr) (i j : ℕ) (p q : Ptr)
      → Linked c ps
      → get_elem? ps i ≡ some p
      → get_elem? ps j ≡ some q
      → swap c i j ≡ ok (record c { value = update (update c.value p (c.value q)) q (c.value p) })
  unfolding swap
  swap_ok c ps i j p q h at_i at_j =
      let (first, live) = find_node-get_elem? c ps i p h at_i in
      let (second, live') = find_node-get_elem? c ps j q h at_j in
      simp (
        lt→leb c.size i (omega (arith, h.sized, get_elem?-lt ps i p at_i)),
        lt→leb c.size j (omega (arith, h.sized, get_elem?-lt ps j q at_j)),
        first,
        second,
        live,
        live',
      )

  -- `swap` of two positions, which may be the same, of a list that holds `x` at the one and `y` at
  -- the other puts `y` at the first and then `x` at the second, and changes no other element.
  pub swap-Stores :
      (c : LinkedList T) (xs : List T) (i j : ℕ) (x y : T)
      → Stores c xs
      → get_elem? xs i ≡ some x
      → get_elem? xs j ≡ some y
      → (c' : LinkedList T) × (swap c i j ≡ ok c') × Stores c' (set (set xs i y) j x)
  swap-Stores c xs i j x y h at_i at_j =
      let l = h.linked in
      let (p, node_i, is_x) =
        get_elem?-map_inv c.value h.nodes i x (ap (λ l. get_elem? l i) h.entries ∙ at_i) in
      let (q, node_j, is_y) =
        get_elem?-map_inv c.value h.nodes j y (ap (λ l. get_elem? l j) h.entries ∙ at_j) in
      let f = update c.value p (c.value q) in
      let moved =
        map-update_at f (c.value p) h.nodes j q l.apart.1 node_j
        ∙ ap (λ l. set l j (c.value p))
            (map-update_at c.value (c.value q) h.nodes i p l.apart.1 node_i) in
      (
        record c { value = update f q (c.value p) },
        swap_ok c h.nodes i j p q l node_i node_j,
        record {
          nodes = h.nodes;
          linked = record {
            end = l.end;
            links = l.links;
            at_end = l.at_end;
            sized = l.sized;
            small = l.small;
            apart = l.apart;
            alive = l.alive;
            below = l.below;
            null = l.null;
          };
          entries = moved ∙ rw (h.entries, is_x, is_y) refl;
        },
      )
