-- ===== src/Lru/Remove.antt =====
-- `removeLast` of LRU.hpp.
use learn_space.Base.{
  All-dead, Distinct, Distinct-without, NotIn, NotIn-middle, Ptr, map_split, update, ◌<◌, ◌+◌, suc,
  ◌≡◌, ◌≢◌, refl, true, false, Option, none, some, List, [], ◌∷◌, ◌++◌, map, length, arith,
  length-append, ap, ◌∙◌, sym, ok, ne→==, All, All-left, All-right, append-nil, length-map,
}
use mathlib.Core.Path.{subst}
use mathlib.Core.Logic.{if_pos, if_neg, ite}
use learn_space.Base.Word.{word, sub_word}
use learn_space.Lru.Chain.{Chain, pre_in}
use learn_space.Lru.Surgery.{unlink}
use learn_space.Lru.Ring.{Ring, Caches, where_is, where_none, keys_middle, keys_others}
use learn_space.Lru.{Containers, map_set, remove_last}
use learn_space.Lru.Get.{entry}

module _ (next pre : Ptr → Ptr) where
  Chain-last :
      (a b p : Ptr) (xs : List Ptr) → Chain next pre a (xs ++ p ∷ []) b → (pre b ≡ p) × (next p ≡ b)
  Chain-last a b p [] c = (c.2.1, c.2.0)
  Chain-last a b p (x ∷ xs) c = Chain-last x b p xs c.2

module _ {ℓ} {K : Type ℓ} (dec : Discrete K) where
  where_dropped :
      (key : Ptr → K) (j : K) (xs : List Ptr) (p : Ptr)
      → key p ≢ j
      → where_is dec key j (xs ++ p ∷ []) ≡ where_is dec key j xs
  unfolding where_is
  where_dropped key j [] p h = if_neg (dec (key p) j) h (some p) none
  where_dropped key j (x ∷ xs) p h = ap (ite (dec (key x) j) (some x)) (where_dropped key j xs p h)

  where_erased :
      (key : Ptr → K) (m : K → Option Ptr) (xs : List Ptr) (p : Ptr)
      → ((j : K) → m j ≡ where_is dec key j (xs ++ p ∷ []))
      → NotIn (key p) (map key xs)
      → (j : K) → map_set dec m (key p) none j ≡ where_is dec key j xs
  where_erased key m xs p h out j = elim (dec (key p) j) [
    | yes same ↦
        if_pos (dec (key p) j) same none (m j)
        ∙ sym (where_none dec key j xs (subst (λ q. NotIn q (map key xs)) same out))
    | no other ↦ if_neg (dec (key p) j) other none (m j) ∙ h j ∙ where_dropped key j xs p other
  ]

module _ {ℓ} {K V : Type ℓ} (dec : Discrete K) where
  -- `removeLast` drops the least recently used entry.
  pub remove_last-Caches :
      {c : Containers K V} (es : List (K × V)) (e : K × V)
      → Caches dec c (es ++ e ∷ [])
      → length es + 1 < word
      → (c' : Containers K V) × (remove_last dec c ≡ ok c') × Caches dec c' es
  unfolding remove_last
  remove_last-Caches {c} es e h few =
      let (xs, p, ys, split, front, here, back) =
        map_split (entry dec c) h.nodes es [] e h.entries in
      go xs p ys (subst (Ring dec c) split h.ring) front back
    where
      drop_node :
          (xs : List Ptr) (p : Ptr)
          → Ring dec c (xs ++ p ∷ [])
          → map (entry dec c) xs ≡ es
          → (c' : Containers K V) × (remove_last dec c ≡ ok c') × Caches dec c' es
      drop_node xs p ring front =
          let s = c.sentry in
          let Lives = λ (q : Ptr). c.live q ≡ true in
          let last = Chain-last c.next_node c.pre_node s s p xs ring.chain in
          let a = c.pre_node p in
          let live_p = (All-right Lives xs (p ∷ []) ring.live).0 in
          let live_a : c.live a ≡ true =
            pre_in c.next_node c.pre_node Lives s s p xs [] ring.chain ring.live_sentry
              (All-left Lives xs (p ∷ []) ring.live) in
          let chain =
            unlink c.next_node c.pre_node s s p a s xs [] ring.chain ring.distinct ring.off ring.off
              refl last.1 in
          let apart = NotIn-middle xs [] p ring.distinct in
          let only = λ (P : Ptr → Type 0) (q : All P (xs ++ p ∷ [])). All-left P xs (p ∷ []) q in
          let others = (keys_others dec c.key xs [] p ring.keys).0 in
          let p_ne_s : s ≢ p = (All-right (λ q. s ≢ q) xs (p ∷ []) ring.off).0 in
          let full : length (xs ++ p ∷ []) ≡ suc (length xs) =
            omega (arith, length-append xs (p ∷ [])) in
          let many : length xs ≡ length es = sym (length-map (entry dec c) xs) ∙ ap length front in
          (
            record c {
              live = update c.live p false;
              next_node = update c.next_node a s;
              pre_node = update c.pre_node s a;
              node_map = map_set dec c.node_map (c.key p) none;
              size = sub_word c.size 1;
            },
            simp (
              ne→== c.size 0 (omega (arith, ring.sized)),
              ring.live_sentry,
              last.0,
              live_p,
              live_a,
            ),
            record {
              nodes = xs;
              ring = record {
                chain =
                    subst (λ l. Chain (update c.next_node a s) (update c.pre_node s a) s l s)
                      (append-nil xs) chain;
                distinct = subst Distinct (append-nil xs) (Distinct-without xs [] p ring.distinct);
                off = only (λ q. s ≢ q) ring.off;
                live =
                    All-dead c.live p xs (only Lives ring.live)
                      (subst (NotIn p) (append-nil xs) apart);
                live_sentry = rw (ne→== p s (λ q. p_ne_s (sym q))) ring.live_sentry;
                null = ground (arith, ring.null);
                below = only (λ q. q < c.fresh) ring.below;
                below_sentry = ring.below_sentry;
                keyed = where_erased dec c.key c.node_map xs p ring.keyed others;
                keys = subst Distinct (append-nil (map c.key xs)) (
                    Distinct-without (map c.key xs) [] (c.key p)
                      (subst Distinct (keys_middle dec c.key xs [] p) ring.keys));
                sized = omega (arith, ring.sized);
              };
              entries = front;
            },
          )

      go :
          (xs : List Ptr) (p : Ptr) (ys : List Ptr)
          → Ring dec c (xs ++ p ∷ ys)
          → map (entry dec c) xs ≡ es
          → map (entry dec c) ys ≡ []
          → (c' : Containers K V) × (remove_last dec c ≡ ok c') × Caches dec c' es
      go xs p [] ring front back = drop_node xs p ring front
      go xs p (y ∷ ys) ring front back = absurd (cc back)
