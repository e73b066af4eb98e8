-- ===== src/Lru/Put.antt =====
-- `put` of LRU.hpp: a new key, and a key that is there.
use learn_space.Base.{
  All-below, All-live, Distinct, NotIn, NotIn-below, Ptr, map-update, update, update_self,
  length-map, ◌<◌, ◌+◌, ◌≡◌, ◌≢◌, refl, true, false, none, some, List, [], ◌∷◌, ◌++◌, map, length,
  arith, ap, ◌∙◌, sym, ok, faults, eq→==, ne→==,
}
use mathlib.Core.Path.{subst}
use mathlib.Core.Logic.{if_pos, if_neg, ite}
use mathlib.Core.Path.{ap₂}
use learn_space.Base.Word.{word, add_word}
use learn_space.Lru.Chain.{frame_next, frame_pre}
use learn_space.Lru.Surgery.{link_head}
use learn_space.Lru.Ring.{Ring, Caches, where_is, where_none}
use learn_space.Lru.{Containers, map_set, new_node, move_node_to_head, put, get}
use learn_space.Lru.Move.{front-Ring, relinked, Moves, move-Moves, insert_to_head_ok}
use learn_space.Lru.Get.{entries_front, entry, keys_of_entries, node_of}

module _ {ℓ} {K : Type ℓ} (dec : Discrete K) where
  where-update :
      (key : Ptr → K) (u : Ptr) (k j : K) (ps : List Ptr)
      → NotIn u ps
      → where_is dec (update key u k) j ps ≡ where_is dec key j ps
  unfolding where_is
  where-update key u k j [] h = refl
  where-update key u k j (p ∷ ps) h =
      rw (ne→== u p h.0) (ap (ite (dec (key p) j) (some p)) (where-update key u k j ps h.1))

module _ {ℓ} {K V : Type ℓ} (dec : Discrete K) where
  -- A new node, not linked yet, changes nothing for the others.
  pub new_node-Ring :
      {c : Containers K V} {ps : List Ptr} (k : K) (v : V)
      → Ring dec c ps
      → Ring dec (new_node c k v).1 ps
  unfolding new_node
  new_node-Ring {c} {ps} k v h =
      let u = c.fresh in
      let out = NotIn-below u ps h.below in
      let chain =
        frame_next c.next_node c.pre_node u 0 c.sentry c.sentry ps h.chain
          (λ e. omega (arith, h.below_sentry)) out in
      record {
        chain =
            frame_pre (update c.next_node u 0) c.pre_node u 0 c.sentry c.sentry ps chain
              (λ e. omega (arith, h.below_sentry)) out;
        distinct = h.distinct;
        off = h.off;
        live = All-live c.live u ps h.live;
        live_sentry = ground (arith, h.live_sentry);
        null = ground (arith, h.null, h.below_sentry);
        below = All-below u ps h.below;
        below_sentry = omega (arith, h.below_sentry);
        keyed = λ j. h.keyed j ∙ sym (where-update dec c.key u k j ps out);
        keys = subst Distinct (sym (map-update c.key u k ps out)) h.keys;
        sized = h.sized;
      }

  pub head_live :
      {c : Containers K V} (ps : List Ptr) → Ring dec c ps → c.live (c.next_node c.sentry) ≡ true
  head_live {c} [] h = rw h.chain.0 h.live_sentry
  head_live {c} (p ∷ ps) h = rw h.chain.0 h.live.0

  -- What linking a new node at the head, and entering it, makes of the containers.
  abbrev entered : Containers K V → Ptr → K → Containers K V
  entered c u k = record c {
    next_node = update (update c.next_node u (c.next_node c.sentry)) c.sentry u;
    pre_node = update (update c.pre_node u c.sentry) (c.next_node c.sentry) u;
    size = add_word c.size 1;
    node_map = map_set dec c.node_map k (some u);
  }

  entered-Ring :
      {c : Containers K V} {ps : List Ptr} (u : Ptr) (k : K)
      → Ring dec c ps
      → c.key u ≡ k
      → c.live u ≡ true
      → u < c.fresh
      → u ≢ c.sentry
      → NotIn u ps
      → NotIn k (map c.key ps)
      → length ps + 1 < word
      → Ring dec (entered c u k) (u ∷ ps)
  unfolding where_is
  entered-Ring {c} {ps} u k h named live below ne out new few = record {
    chain =
        link_head c.next_node c.pre_node c.sentry u (c.next_node c.sentry) ps h.chain h.distinct
          h.off out ne refl;
    distinct = (out, h.distinct);
    off = (λ e. ne (sym e), h.off);
    live = (live, h.live);
    live_sentry = h.live_sentry;
    null = h.null;
    below = (below, h.below);
    below_sentry = h.below_sentry;
    keyed = λ j. rw named (ap (ite (dec k j) (some u)) (h.keyed j));
    keys = (subst (λ q. NotIn q (map c.key ps)) (sym named) new, h.keys);
    sized = omega (arith, h.sized);
  }

  entries-update :
      (c : Containers K V) (u : Ptr) (k : K) (v : V) (ps : List Ptr)
      → NotIn u ps
      → map (λ p. (update c.key u k p, update c.value u v p)) ps ≡ map (entry dec c) ps
  entries-update c u k v [] h = refl
  entries-update c u k v (p ∷ ps) h =
      rw (ne→== u p h.0) (ap (◌∷◌ (entry dec c p)) (entries-update c u k v ps h.1))

  -- `put` of a key that is not there makes its entry the most recent one.
  pub put_new :
      {c : Containers K V} {es : List (K × V)} (k : K) (v : V)
      → Caches dec c es
      → NotIn k (map (λ (e : K × V). e.0) es)
      → length es + 1 < word
      → (c' : Containers K V) × (put dec c k v ≡ ok c') × Caches dec c' ((k, v) ∷ es)
  unfolding put new_node
  put_new {c} {es} k v h out few =
      let ps = h.nodes in
      let u = c.fresh in
      let c1 = (new_node c k v).1 in
      let ring = new_node-Ring k v h.ring in
      let not_in = NotIn-below u ps h.ring.below in
      let ne : u ≢ c.sentry = (λ e. omega (arith, h.ring.below_sentry)) in
      let absent : NotIn k (map c.key ps) =
        subst (NotIn k) (ap (map (λ (e : K × V). e.0)) (sym h.entries) ∙ keys_of_entries dec c ps)
          out in
      let missing : c.node_map k ≡ none = h.ring.keyed k ∙ where_none dec c.key k ps absent in
      let new : NotIn k (map c1.key ps) =
        subst (NotIn k) (sym (map-update c.key u k ps not_in)) absent in
      let live : c1.live u ≡ true = update_self c.live u true refl in
      let linked = insert_to_head_ok c1 u live ring.live_sentry (head_live ps ring) ne in
      let many : length ps ≡ length es = sym (length-map (entry dec c) ps) ∙ ap length h.entries in
      (
        entered c1 u k,
        rw (missing, put, linked),
        record {
          nodes = u ∷ ps;
          ring =
              entered-Ring u k ring (update_self c.key u k refl) live (omega arith) ne not_in new
                (omega arith);
          entries = ap₂ ◌∷◌ (rw (eq→== u u refl)) (entries-update c u k v ps not_in ∙ h.entries);
        },
      )

  -- `put` of a key that is there only moves its entry to the front: the nodes still hold the old
  -- value, and not the new one, and the map holds a null pointer for the key, which the next `get` or
  -- `put` of the key follows. The entries of the other keys are still found where they were.
  pub put_again :
      {c : Containers K V} (es fs : List (K × V)) (k : K) (v0 v : V)
      → Caches dec c (es ++ (k, v0) ∷ fs)
      → (c' : Containers K V) × (put dec c k v ≡ ok c')
        × (c'.node_map k ≡ some 0)
        × (c'.live 0 ≡ false)
        × ((j : K) → j ≢ k → c'.node_map j ≡ c.node_map j)
        × Caches dec (record c' { node_map = c.node_map }) ((k, v0) ∷ (es ++ fs))
        × ((old : V) → get dec c' k old ≡ faults)
        × ((w : V) → put dec c' k w ≡ faults)
  unfolding put get Moves move_node_to_head
  put_again {c} es fs k v0 v h =
      let (xs, p, ys, ring, found, front, here, back) = node_of dec es fs k v0 h in
      let (next, pre, moved, chain) = move-Moves dec p xs ys ring in
      let c1 = relinked c next pre in
      let m = map_set dec c.node_map k (some 0) in
      let null : m k ≡ some 0 = if_pos (dec k k) refl (some 0) (c.node_map k) in
      (
        record c1 { node_map = m },
        rw (found, put, moved),
        null,
        ring.null,
        λ j n. if_neg (dec k j) (λ e. n (sym e)) (some 0) (c.node_map j),
        record {
          nodes = p ∷ (xs ++ ys);
          ring = front-Ring dec p xs ys next pre ring chain;
          entries = entries_front dec c p xs ys front here back;
        },
        λ old. rw (null, get, ring.null),
        λ w. rw (null, put, ring.null),
      )
