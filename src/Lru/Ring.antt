-- ===== src/Lru/Ring.antt =====
-- The representation invariant of `LRUContainers`: the ring of nodes and the map into it agree.
use learn_space.Base.{
  Distinct, Distinct-without, NotIn, NotIn-middle, Ptr, ◌<◌, ◌≡◌, ◌≢◌, refl, true, false, Option,
  none, some, List, [], ◌∷◌, ◌++◌, map, length, arith, ap, ◌∙◌, sym, All, All-left, All-right,
}
use mathlib.Core.List.{map-append}
use mathlib.Core.Logic.{ite, if_pos, if_neg}
use mathlib.Core.Path.{subst}
use learn_space.Lru.{Containers}
use learn_space.Lru.Chain.{Chain}

module _ {ℓ} {K : Type ℓ} (dec : Discrete K) where
  -- The first node of a list that has the key.
  unfoldable pub where_is : (Ptr → K) → K → List Ptr → Option Ptr
  where_is key k [] = none
  where_is key k (p ∷ ps) = ite (dec (key p) k) (some p) (where_is key k ps)

  -- The node with a key, if it is the first one, is found.
  pub where_here :
      (key : Ptr → K) (k : K) (xs ys : List Ptr) (p : Ptr)
      → key p ≡ k
      → NotIn (key p) (map key xs)
      → where_is key k (xs ++ p ∷ ys) ≡ some p
  unfolding where_is
  where_here key k [] ys p e h = if_pos (dec (key p) k) e (some p) (where_is key k ys)
  where_here key k (x ∷ xs) ys p e h =
      if_neg (dec (key x) k) (λ same. h.0 (e ∙ sym same)) (some x) (where_is key k (xs ++ p ∷ ys))
      ∙ where_here key k xs ys p e h.1

  pub where_none :
      (key : Ptr → K) (k : K) (ps : List Ptr) → NotIn k (map key ps) → where_is key k ps ≡ none
  unfolding where_is
  where_none key k [] h = refl
  where_none key k (p ∷ ps) h =
      if_neg (dec (key p) k) (λ same. h.0 (sym same)) (some p) (where_is key k ps)
      ∙ where_none key k ps h.1

  -- Lookups do not notice that a node moves to the front, if no other has its key.
  pub where_front :
      (key : Ptr → K) (k : K) (p : Ptr) (xs ys : List Ptr)
      → NotIn (key p) (map key xs)
      → where_is key k (p ∷ (xs ++ ys)) ≡ where_is key k (xs ++ p ∷ ys)
  unfolding where_is
  where_front key k p [] ys h = refl
  where_front key k p (x ∷ xs) ys h = ground (arith, where_front key k p xs ys h.1, h.0)

  pub keys_middle :
      (key : Ptr → K) (xs ys : List Ptr) (p : Ptr)
      → map key (xs ++ p ∷ ys) ≡ map key xs ++ key p ∷ map key ys
  keys_middle key [] ys p = refl
  keys_middle key (x ∷ xs) ys p = ap (◌∷◌ (key x)) (keys_middle key xs ys p)

  pub keys_others :
      (key : Ptr → K) (xs ys : List Ptr) (p : Ptr)
      → Distinct (map key (xs ++ p ∷ ys))
      → NotIn (key p) (map key xs) × NotIn (key p) (map key ys)
  keys_others key xs ys p d =
      let apart =
        NotIn-middle (map key xs) (map key ys) (key p)
          (subst Distinct (keys_middle key xs ys p) d) in
      let Apart = λ (z : K). key p ≢ z in
      (
        All-left Apart (map key xs) (map key ys) apart,
        All-right Apart (map key xs) (map key ys) apart,
      )

  pub keys_front :
      (key : Ptr → K) (xs ys : List Ptr) (p : Ptr)
      → Distinct (map key (xs ++ p ∷ ys))
      → Distinct (map key (p ∷ (xs ++ ys)))
  keys_front key xs ys p d =
      let d' = subst Distinct (keys_middle key xs ys p) d in
      let both = map-append key xs ys in
      (
        subst (NotIn (key p)) (sym both) (NotIn-middle (map key xs) (map key ys) (key p) d'),
        subst Distinct (sym both) (Distinct-without (map key xs) (map key ys) (key p) d'),
      )

module _ {ℓ} {K V : Type ℓ} (dec : Discrete K) where
  -- The nodes from the head of the ring are `ps`, and the map names each by its key.
  pub record Ring (c : Containers K V) (ps : List Ptr) : Type ℓ where
    pub chain : Chain c.next_node c.pre_node c.sentry ps c.sentry
    pub distinct : Distinct ps
    pub off : NotIn c.sentry ps
    pub live : All (λ p. c.live p ≡ true) ps
    pub live_sentry : c.live c.sentry ≡ true
    pub null : c.live 0 ≡ false
    pub below : All (λ p. p < c.fresh) ps
    pub below_sentry : c.sentry < c.fresh
    pub keyed : (k : K) → c.node_map k ≡ where_is dec c.key k ps
    pub keys : Distinct (map c.key ps)
    pub sized : c.size ≡ length ps

  -- What the containers stand for: the entries, the most recently used first.
  pub record Caches (c : Containers K V) (es : List (K × V)) : Type ℓ where
    pub nodes : List Ptr
    pub ring : Ring c nodes
    pub entries : map (λ p. (c.key p, c.value p)) nodes ≡ es
