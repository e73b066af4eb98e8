-- ===== src/LinkedList/Whole.antt =====
-- `clear` and `swap` of List.hpp.
use learn_space.Base.{
  ℕ, zero, suc, ◌<◌, ◌≡◌, refl, sym, ◌∙◌, true, false, List, [], ◌∷◌, length, All, All-dead, Bool,
  ok, arith, ne→==, Ptr, update, NotIn, Distinct, update_self, update_ne,
}
use learn_space.Nodes.Links.{Links}
use learn_space.Nodes.Linked.{Stores}
use learn_space.LinkedList.Find.{nonzero}
use learn_space.LinkedList.{LinkedList, clear_loop, clear}

-- `live'` is `live` with the nodes `ps` freed.
abbrev pub Freed : (Ptr → Bool) → List Ptr → (Ptr → Bool) → Type 0
Freed live ps live' = All (λ p. live' p ≡ false) ps × ((q : Ptr) → NotIn q ps → live' q ≡ live q)

-- Live nodes are not the null pointer.
pub no_null :
    (live : Ptr → Bool) (ps : List Ptr) → All (λ p. live p ≡ true) ps → live 0 ≡ false → NotIn 0 ps
no_null live [] h null = tt
no_null live (p ∷ ps) h null = (λ e. absurd (cc (h.0, null, e)), no_null live ps h.1 null)

module _ {ℓ} {T : Type ℓ} where
  -- The loop frees the nodes, each once, and writes to no other field.
  clear_loop-Freed :
      (c : LinkedList T) (fuel : ℕ) (a : Ptr) (ps : List Ptr) (t : Ptr)
      → Links c.next c.previous a ps t
      → All (λ p. c.live p ≡ true) ps
      → Distinct ps
      → c.live 0 ≡ false
      → length ps < fuel
      → (live' : Ptr → Bool) × (clear_loop c fuel (c.next a) ≡ ok (record c { live = live' }))
        × Freed c.live ps live'
  unfolding clear_loop
  clear_loop-Freed c zero a ps t l h d null few = absurd (omega arith)
  clear_loop-Freed c (suc fuel) a [] t l h d null few = (c.live, rw (l.0) refl, (tt, λ q out. refl))
  clear_loop-Freed c (suc fuel) a (p ∷ ps) t l h d null few =
      let c1 = record c { live = update c.live p false } in
      let (live', run, freed) =
        clear_loop-Freed c1 fuel p ps t l.2 (All-dead c.live p ps h.1 d.0) d.1
          (ground (arith, null)) (omega arith) in
      (
        live',
        rw (l.0, ne→== p 0 (nonzero c null p h.0), h.0) run,
        (
          (freed.1 p d.0 ∙ update_self c.live p false refl, freed.0),
          λ q out. freed.1 q out.1 ∙ update_ne c.live p false (λ e. out.0 (sym e)),
        ),
      )

  -- `clear` of a list that holds `xs` returns, and the list is then empty; it has freed the nodes of
  -- `xs`, each once, and no others.
  pub clear-Stores :
      (c : LinkedList T) (xs : List T) (h : Stores c xs)
      → (c' : LinkedList T) × (clear c ≡ ok c') × Stores c' [] × Freed c.live h.nodes c'.live
  unfolding clear
  clear-Stores c xs h =
      let l = h.linked in
      let (live', run, freed) =
        clear_loop-Freed c (suc c.size) c.head_node h.nodes l.end l.links l.alive.1 l.apart.1 l.null
          (omega (arith, l.sized)) in
      let head : live' c.head_node ≡ true = freed.1 c.head_node l.apart.0 ∙ l.alive.0 in
      (
        record c { live = live'; next = update c.next c.head_node 0; tail_node = 0; size = 0 },
        simp (l.alive.0, run, head),
        record {
          nodes = [];
          linked = record {
            end = c.head_node;
            links = (update_self c.next c.head_node 0 refl, refl);
            at_end = refl;
            sized = refl;
            small = omega arith;
            apart = (tt, tt);
            alive = (head, tt);
            below = (l.below.0, tt);
            null = freed.1 0 (no_null c.live h.nodes l.alive.1 l.null) ∙ l.null;
          };
          entries = refl;
        },
        freed,
      )
