-- ===== src/Lru/Surgery.antt =====
-- Taking a node out of a chain, and putting one at its head: the writes of LRU.hpp.
use learn_space.Base.{
  Distinct, NotIn, Ptr, update, update_ne, update_self, ◌≡◌, refl, ◌≢◌, List, [], ◌∷◌, ◌++◌, sym,
  ◌∙◌, All-left, All-right,
}
use mathlib.Core.Path.{subst}
use learn_space.Lru.Chain.{Chain, pre_in, next_in, frame_next, frame_pre}

module _ (next pre : Ptr → Ptr) where
  -- With the neighbours of `p` linked to one another the chain is as before, less `p`.
  pub unlink :
      (a0 b0 p a b : Ptr) (xs ys : List Ptr)
      → Chain next pre a0 (xs ++ p ∷ ys) b0
      → Distinct (xs ++ p ∷ ys)
      → NotIn a0 (xs ++ p ∷ ys)
      → NotIn b0 (xs ++ p ∷ ys)
      → pre p ≡ a
      → next p ≡ b
      → Chain (update next a b) (update pre b a) a0 (xs ++ ys) b0
  unlink a0 b0 p a b [] [] c d na nb ea eb =
      let at_a : a ≡ a0 = sym ea ∙ c.1 in
      let at_b : b ≡ b0 = sym eb ∙ c.2.0 in
      (update_self next a b at_a ∙ at_b, update_self pre b a at_b ∙ at_a)
  unlink a0 b0 p a b [] (y ∷ ys) c d na nb ea eb =
      let at_a : a ≡ a0 = sym ea ∙ c.1 in
      let at_b : b ≡ y = sym eb ∙ c.2.0 in
      let na' : NotIn a (p ∷ y ∷ ys) = subst (λ q. NotIn q (p ∷ y ∷ ys)) (sym at_a) na in
      let kept = frame_next next pre a b y b0 ys c.2.2 na'.1.0 na'.1.1 in
      (
        update_self next a b at_a ∙ at_b,
        update_self pre b a at_b ∙ at_a,
        frame_pre (update next a b) pre b a y b0 ys kept (λ e. nb.1.0 (sym e ∙ at_b))
            (subst (λ q. NotIn q ys) (sym at_b) d.1.0),
      )
  unlink a0 b0 p a b (x ∷ xs) ys c d na nb ea eb =
      let apart_a : a0 ≢ pre p =
        pre_in next pre (λ q. a0 ≢ q) x b0 p xs ys c.2 na.0
          (All-left (λ q. a0 ≢ q) xs (p ∷ ys) na.1) in
      let apart_b : x ≢ next p =
        next_in next pre (λ q. x ≢ q) x b0 p xs ys c.2 (λ e. nb.0 (sym e))
          (All-right (λ q. x ≢ q) xs (p ∷ ys) d.0).1 in
      (
        update_ne next a b (λ e. apart_a (sym (ea ∙ e))) ∙ c.0,
        update_ne pre b a (λ e. apart_b (sym (eb ∙ e))) ∙ c.1,
        unlink x b0 p a b xs ys c.2 d.1 d.0 nb.1 ea eb,
      )

  -- The writes of `insertToHead` put `q` first in the ring of `s`.
  pub link_head :
      (s q h : Ptr) (ps : List Ptr)
      → Chain next pre s ps s
      → Distinct ps
      → NotIn s ps
      → NotIn q ps
      → q ≢ s
      → next s ≡ h
      → Chain (update (update next q h) s q) (update (update pre q s) h q) s (q ∷ ps) s
  link_head s q h [] c d ns nq ne eh =
      let at_h : h ≡ s = sym eh ∙ c.0 in
      (
        update_self (update next q h) s q refl,
        update_ne (update pre q s) h q (λ e. ne (sym e ∙ at_h)) ∙ update_self pre q s refl,
        (
          update_ne (update next q h) s q (λ e. ne (sym e)) ∙ update_self next q h refl ∙ at_h,
          update_self (update pre q s) h q at_h,
        ),
      )
  link_head s q h (p ∷ ps) c d ns nq ne eh =
      let at_h : h ≡ p = sym eh ∙ c.0 in
      let c1 = frame_next next pre q h p s ps c.2 nq.0 nq.1 in
      let c2 = frame_next (update next q h) pre s q p s ps c1 ns.0 ns.1 in
      let c3 = frame_pre (update (update next q h) s q) pre q s p s ps c2 ne nq.1 in
      (
        update_self (update next q h) s q refl,
        update_ne (update pre q s) h q (λ e. nq.0 (sym e ∙ at_h)) ∙ update_self pre q s refl,
        (
          update_ne (update next q h) s q (λ e. ne (sym e)) ∙ update_self next q h refl ∙ at_h,
          update_self (update pre q s) h q at_h,
          frame_pre (update (update next q h) s q) (update pre q s) h q p s ps c3
              (λ e. ns.0 (sym e ∙ at_h)) (subst (λ u. NotIn u ps) (sym at_h) d.0),
        ),
      )
