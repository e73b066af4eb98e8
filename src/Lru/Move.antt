-- ===== src/Lru/Move.antt =====
-- `insertToHead`, `moveNodeToHead` and `get` of LRU.hpp.
use learn_space.Base.{
  Distinct-without, NotIn-middle, Ptr, update, ◌<◌, suc, ◌≡◌, ◌≢◌, refl, true, List, [], ◌∷◌, ◌++◌,
  length, ap, ◌∙◌, sym, ok, eq→==, ne→==, All, All-left, All-right, All-without,
}
use learn_space.Lru.{Containers, insert_to_head, move_node_to_head}
use learn_space.Lru.Chain.{Chain, pre_in, next_in}
use learn_space.Lru.Surgery.{unlink, link_head}
use learn_space.Lru.Ring.{Ring, where_front, keys_front, keys_others}

length_middle : (xs ys : List Ptr) (p : Ptr) → length (xs ++ p ∷ ys) ≡ length (p ∷ (xs ++ ys))
length_middle [] ys p = refl
length_middle (x ∷ xs) ys p = ap suc (length_middle xs ys p)

module _ {ℓ} {K V : Type ℓ} where
  -- The same nodes with other links.
  abbrev pub relinked : Containers K V → (Ptr → Ptr) → (Ptr → Ptr) → Containers K V
  relinked c next pre = record c { next_node = next; pre_node = pre }

  pub insert_to_head_ok :
      (c : Containers K V) (q : Ptr)
      → c.live q ≡ true
      → c.live c.sentry ≡ true
      → c.live (c.next_node c.sentry) ≡ true
      → q ≢ c.sentry
      → insert_to_head c q
        ≡ ok (
            relinked c
              (update (update c.next_node q (c.next_node c.sentry)) c.sentry q)
              (update (update c.pre_node q c.sentry) (c.next_node c.sentry) q))
  unfolding insert_to_head
  insert_to_head_ok c q lq ls lh ne =
      simp (ls, lq, ne→== c.sentry q (λ e. ne (sym e)), eq→== q q refl, lh)

  -- The links that `moveNodeToHead` makes.
  unfoldable pub Moves : Containers K V → Ptr → List Ptr → Type ℓ
  Moves c p ps =
      (next : Ptr → Ptr) × (pre : Ptr → Ptr) × (move_node_to_head c p ≡ ok (relinked c next pre))
      × Chain next pre c.sentry ps c.sentry

  module _ (dec : Discrete K) where
    pub move-Moves :
        {c : Containers K V} (p : Ptr) (xs ys : List Ptr)
        → Ring dec c (xs ++ p ∷ ys)
        → Moves c p (p ∷ (xs ++ ys))
    unfolding Moves move_node_to_head
    move-Moves {c} p [] ys h =
        (c.next_node, c.pre_node, rw (h.live.0, eq→== (c.pre_node p) c.sentry h.chain.1), h.chain)
    move-Moves {c} p (x ∷ xs) ys h =
        let s = c.sentry in
        let next = c.next_node in
        let pre = c.pre_node in
        let a = pre p in
        let b = next p in
        let Lives = λ (q : Ptr). c.live q ≡ true in
        let live_p : c.live p ≡ true = (All-right Lives (x ∷ xs) (p ∷ ys) h.live).0 in
        let live_a : c.live a ≡ true =
          pre_in next pre Lives s s p (x ∷ xs) ys h.chain h.live_sentry
            (All-left Lives (x ∷ xs) (p ∷ ys) h.live) in
        let live_b : c.live b ≡ true =
          next_in next pre Lives s s p (x ∷ xs) ys h.chain h.live_sentry
            (All-right Lives (x ∷ xs) (p ∷ ys) h.live).1 in
        let a_ne_s : s ≢ a =
          pre_in next pre (λ q. s ≢ q) x s p xs ys h.chain.2 h.off.0
            (All-left (λ q. s ≢ q) xs (p ∷ ys) h.off.1) in
        let p_not = NotIn-middle (x ∷ xs) ys p h.distinct in
        let s_ne_p : s ≢ p = (All-right (λ q. s ≢ q) (x ∷ xs) (p ∷ ys) h.off).0 in
        let a_ne_p : p ≢ a =
          pre_in next pre (λ q. p ≢ q) s s p (x ∷ xs) ys h.chain (λ e. s_ne_p (sym e))
            (All-left (λ q. p ≢ q) (x ∷ xs) ys p_not) in
        let next2 = update next a b in
        let pre2 = update pre b a in
        let c2 = relinked c next2 pre2 in
        let chain2 =
          unlink next pre s s p a b (x ∷ xs) ys h.chain h.distinct h.off h.off refl refl in
        let head_live : c.live (next2 s) ≡ true = rw chain2.0 h.live.0 in
        let inserted =
          insert_to_head_ok c2 p live_p h.live_sentry head_live (λ e. s_ne_p (sym e)) in
        (
          update (update next2 p (next2 s)) s p,
          update (update pre2 p s) (next2 s) p,
          simp (
            live_p,
            ne→== a s (λ e. a_ne_s (sym e)),
            live_a,
            ne→== a p (λ e. a_ne_p (sym e)),
            live_b,
            inserted,
          ),
          link_head next2 pre2 s p (next2 s) ((x ∷ xs) ++ ys) chain2
              (Distinct-without (x ∷ xs) ys p h.distinct)
              (All-without (λ q. s ≢ q) (x ∷ xs) ys p h.off) p_not (λ e. s_ne_p (sym e)) refl,
        )

    pub front-Ring :
        {c : Containers K V} (p : Ptr) (xs ys : List Ptr) (next pre : Ptr → Ptr)
        → Ring dec c (xs ++ p ∷ ys)
        → Chain next pre c.sentry (p ∷ (xs ++ ys)) c.sentry
        → Ring dec (relinked c next pre) (p ∷ (xs ++ ys))
    front-Ring {c} p xs ys next pre h chain = record {
      chain = chain;
      distinct = (NotIn-middle xs ys p h.distinct, Distinct-without xs ys p h.distinct);
      off = All_front (λ q. c.sentry ≢ q) h.off;
      live = All_front (λ q. c.live q ≡ true) h.live;
      live_sentry = h.live_sentry;
      null = h.null;
      below = All_front (λ q. q < c.fresh) h.below;
      below_sentry = h.below_sentry;
      keyed = λ k.
          h.keyed k
          ∙ sym (where_front dec c.key k p xs ys (keys_others dec c.key xs ys p h.keys).0);
      keys = keys_front dec c.key xs ys p h.keys;
      sized = h.sized ∙ length_middle xs ys p;
    }
      where
        All_front : (P : Ptr → Type 0) → All P (xs ++ p ∷ ys) → All P (p ∷ (xs ++ ys))
        All_front P a = ((All-right P xs (p ∷ ys) a).0, All-without P xs ys p a)
