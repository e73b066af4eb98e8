-- ===== src/Lru/Clear.antt =====
-- `clear` of LRU.hpp: it frees the nodes, and leaves the links of the sentry.
use learn_space.Base.{
  All-dead, Distinct, NotIn, Ptr, update, update_self, ℕ, zero, suc, ◌≤◌, ◌+◌, ◌≡◌, ◌≢◌, refl, Bool,
  true, false, none, List, [], ◌∷◌, map, length, arith, ap, ◌∙◌, sym, ok, faults, eq→==, ne→==,
  length-map, All,
}
use learn_space.Lru.Chain.{Chain}
use learn_space.Lru.Ring.{Ring, Caches}
use learn_space.Lru.{Containers, new_node, insert_to_head, clear_loop, clear, put}

module _ {ℓ} {K V : Type ℓ} where
  -- The loop frees the nodes from `p` on, and comes back to the sentry.
  clear_loop_lem :
      (fuel : ℕ) (c : Containers K V) (p : Ptr) (ps : List Ptr)
      → length ps + 2 ≤ fuel
      → Chain c.next_node c.pre_node p ps c.sentry
      → Distinct (p ∷ ps)
      → NotIn c.sentry (p ∷ ps)
      → All (λ q. c.live q ≡ true) (p ∷ ps)
      → c.live c.sentry ≡ true
      → (live : Ptr → Bool) × (clear_loop fuel c p ≡ ok (record c { live = live }))
        × ((q : Ptr) → c.live q ≡ false → live q ≡ false)
        × (live p ≡ false)
        × (live c.sentry ≡ true)
  unfolding clear_loop
  clear_loop_lem zero c p ps few chain apart off lives ls = absurd (omega arith)
  clear_loop_lem (suc zero) c p ps few chain apart off lives ls = absurd (omega arith)
  clear_loop_lem (suc (suc fuel)) c p [] few chain apart off lives ls =
      let s = c.sentry in
      (
        update c.live p false,
        simp (ne→== p s (λ e. off.0 (sym e)), lives.0, chain.0, ls, chain.1, eq→== s s refl),
        λ q h. ground (arith, h),
        update_self c.live p false refl,
        rw (ne→== p s (λ e. off.0 (sym e))) ls,
      )
  clear_loop_lem (suc (suc fuel)) c p (x ∷ xs) few chain apart off lives ls =
      let s = c.sentry in
      let c1 = record c { live = update c.live p false } in
      let (live, went, stay, dead, up) =
        clear_loop_lem (suc fuel) c1 x xs (omega (arith, few)) chain.2 apart.1 off.1
          (All-dead c.live p (x ∷ xs) lives.1 apart.0) (rw (ne→== p s (λ e. off.0 (sym e))) ls) in
      (
        live,
        (simp (ne→== p s (λ e. off.0 (sym e)), lives.0, chain.0, lives.1.0, chain.1)) ∙ went,
        λ q h. stay q (ground (arith, h)),
        stay p (update_self c.live p false refl),
        up,
      )

module _ {ℓ} {K V : Type ℓ} (dec : Discrete K) where
  -- With fuel for the nodes and two more, `clear` of containers with an entry comes to an end; the
  -- next `put` follows the link of the sentry to a node that is freed.
  pub clear-put :
      {c : Containers K V} {e : K × V} {es : List (K × V)} (fuel : ℕ)
      → Caches dec c (e ∷ es)
      → length es + 2 ≤ fuel
      → (c' : Containers K V) × (clear fuel c ≡ ok c')
        × (c'.size ≡ 0)
        × ((k : K) (v : V) → put dec c' k v ≡ faults)
  unfolding clear put new_node insert_to_head
  clear-put {c} {e} {es} fuel h few = go h.nodes h.ring h.entries
    where
      go :
          (ps : List Ptr)
          → Ring dec c ps
          → map (λ p. (c.key p, c.value p)) ps ≡ e ∷ es
          → (c' : Containers K V) × (clear fuel c ≡ ok c')
            × (c'.size ≡ 0)
            × ((k : K) (v : V) → put dec c' k v ≡ faults)
      go [] ring entries = absurd (cc entries)
      go (p ∷ ps) ring entries =
          let s = c.sentry in
          let u = c.fresh in
          let many : length ps ≡ length es = omega (
            arith,
            length-map {B = K × V} (λ p. (c.key p, c.value p)) (p ∷ ps),
            ap length entries,
          ) in
          let (live, went, stay, dead, up) =
            clear_loop_lem fuel c p ps (omega (arith, many, few)) ring.chain.2 ring.distinct
              ring.off ring.live ring.live_sentry in
          let ne : u ≢ s = (λ q. omega (arith, ring.below_sentry)) in
          let ne' : u ≢ p = (λ q. omega (arith, ring.below.0)) in
          (
            record c { live = live; size = 0; node_map = λ _. none },
            simp (ring.live_sentry, ring.chain.0, went),
            refl,
            λ k v. simp (
              ne→== u s ne,
              ne→== s u (λ q. ne (sym q)),
              ne→== u p ne',
              eq→== u u refl,
              up,
              ring.chain.0,
              dead,
            ),
          )
