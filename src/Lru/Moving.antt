-- ===== src/Lru/Moving.antt =====
-- The `put` of LRU.hpp that moves from its arguments.
use learn_space.Base.{
  NotIn, update, update_self, ◌≡◌, ◌≢◌, refl, true, false, none, some, List, map, arith, ap, ◌∙◌,
  sym, ok,
}
use mathlib.Core.Path.{subst}
use mathlib.Core.Logic.{if_neg}
use learn_space.Base.Word.{add_word}
use learn_space.Lru.Ring.{Caches, where_none}
use learn_space.Lru.{Containers, map_set, new_node, put_moving, get}
use learn_space.Lru.Move.{insert_to_head_ok}
use learn_space.Lru.Get.{keys_of_entries}
use learn_space.Lru.Put.{new_node-Ring, head_live}

module _ {ℓ} {K V : Type ℓ} (dec : Discrete K) where
  -- `put(Key&&, Value&&)` of a key that is not there, and that moving changes, ends normally, but
  -- enters the node under what is left of the key: a `get` of the key does not find it.
  pub put_moving_lost :
      {c : Containers K V} {es : List (K × V)} (moved : K → K) (k : K) (v : V)
      → Caches dec c es
      → NotIn k (map (λ (e : K × V). e.0) es)
      → moved k ≢ k
      → (c' : Containers K V) × (put_moving dec moved c k v ≡ ok c')
        × ((old : V) → get dec c' k old ≡ ok (false, old, c'))
  unfolding put_moving new_node get
  put_moving_lost {c} {es} moved k v h out other =
      let ps = h.nodes in
      let u = c.fresh in
      let c1 = (new_node c k v).1 in
      let ring = new_node-Ring dec k v h.ring in
      let ne : u ≢ c.sentry = (λ e. omega (arith, h.ring.below_sentry)) in
      let absent : NotIn k (map c.key ps) =
        subst (NotIn k) (ap (map (λ (e : K × V). e.0)) (sym h.entries) ∙ keys_of_entries dec c ps)
          out in
      let missing : c.node_map k ≡ none = h.ring.keyed k ∙ where_none dec c.key k ps absent in
      let live : c1.live u ≡ true = update_self c.live u true refl in
      let linked = insert_to_head_ok c1 u live ring.live_sentry (head_live dec ps ring) ne in
      let still : map_set dec c.node_map (moved k) (some u) k ≡ none =
        if_neg (dec (moved k) k) other (some u) (c.node_map k) ∙ missing in
      (
        record c1 {
          next_node = update (update c1.next_node u (c1.next_node c.sentry)) c.sentry u;
          pre_node = update (update c1.pre_node u c.sentry) (c1.next_node c.sentry) u;
          size = add_word c.size 1;
          node_map = map_set dec c.node_map (moved k) (some u);
        },
        rw (missing, put_moving, linked) refl,
        λ old. rw (still, get) refl,
      )
