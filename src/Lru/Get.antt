-- ===== src/Lru/Get.antt =====
-- `get` of LRU.hpp: a hit and a miss.
use learn_space.Base.{
  NotIn, Ptr, map_split, ◌≡◌, refl, true, false, none, some, List, [], ◌∷◌, ◌++◌, map, ap, ◌∙◌, sym,
  ok, All-right,
}
use mathlib.Core.Path.{subst}
use learn_space.Lru.Ring.{Ring, Caches, where_here, where_none, keys_others}
use learn_space.Lru.{Containers, get}
use learn_space.Lru.Move.{relinked, Moves, move-Moves, front-Ring}

module _ {ℓ} {K V : Type ℓ} (dec : Discrete K) where
  abbrev pub entry : Containers K V → Ptr → K × V
  entry c p = (c.key p, c.value p)

  pub keys_of_entries :
      (c : Containers K V) (ps : List Ptr)
      → map (λ (e : K × V). e.0) (map (entry c) ps) ≡ map c.key ps
  keys_of_entries c [] = refl
  keys_of_entries c (p ∷ ps) = ap (◌∷◌ (c.key p)) (keys_of_entries c ps)

  pub entries-append :
      (c : Containers K V) (xs ys : List Ptr)
      → map (entry c) (xs ++ ys) ≡ map (entry c) xs ++ map (entry c) ys
  entries-append c [] ys = refl
  entries-append c (x ∷ xs) ys = ap (◌∷◌ (entry c x)) (entries-append c xs ys)

  pub entries_front :
      (c : Containers K V) (p : Ptr) (xs ys : List Ptr) {e : K × V} {es fs : List (K × V)}
      → map (entry c) xs ≡ es
      → entry c p ≡ e
      → map (entry c) ys ≡ fs
      → map (entry c) (p ∷ (xs ++ ys)) ≡ e ∷ (es ++ fs)
  entries_front c p xs ys {e} {es} front here back =
      ap (λ x. x ∷ map (entry c) (xs ++ ys)) here
      ∙ ap (◌∷◌ e)
          (entries-append c xs ys ∙ ap (λ l. l ++ map (entry c) ys) front ∙ ap (λ l. es ++ l) back)

  -- The node of an entry, and that the map leads to it.
  pub node_of :
      {c : Containers K V} (es fs : List (K × V)) (k : K) (v : V)
      → Caches dec c (es ++ (k, v) ∷ fs)
      → (xs : List Ptr) × (p : Ptr) × (ys : List Ptr) × Ring dec c (xs ++ p ∷ ys)
        × (c.node_map k ≡ some p)
        × (map (entry c) xs ≡ es)
        × (entry c p ≡ (k, v))
        × (map (entry c) ys ≡ fs)
  node_of {c} es fs k v h =
      let (xs, p, ys, split, front, here, back) =
        map_split (entry c) h.nodes es fs (k, v) h.entries in
      let ring = subst (Ring dec c) split h.ring in
      let found =
        ring.keyed k
        ∙ where_here dec c.key k xs ys p (ap (λ e. e.0) here)
            (keys_others dec c.key xs ys p ring.keys).0 in
      (xs, p, ys, ring, found, front, here, back)

  -- `get` of a key that is there gives its value, and makes its entry the most recent one.
  pub get_hit :
      {c : Containers K V} (es fs : List (K × V)) (k : K) (v old : V)
      → Caches dec c (es ++ (k, v) ∷ fs)
      → (c' : Containers K V) × (get dec c k old ≡ ok (true, v, c'))
        × Caches dec c' ((k, v) ∷ (es ++ fs))
  unfolding get Moves
  get_hit {c} es fs k v old h =
      let (xs, p, ys, ring, found, front, here, back) = node_of es fs k v h in
      let (next, pre, moved, chain) = move-Moves dec p xs ys ring in
      let live = (All-right (λ q. c.live q ≡ true) xs (p ∷ ys) ring.live).0 in
      (
        relinked c next pre,
        rw (found, get, live, moved)
            (ap (λ u. ok (true, u, relinked c next pre)) (ap (λ e. e.1) here)),
        record {
          nodes = p ∷ (xs ++ ys);
          ring = front-Ring dec p xs ys next pre ring chain;
          entries = entries_front c p xs ys front here back;
        },
      )

  -- `get` of a key that is not there changes nothing.
  pub get_miss :
      {c : Containers K V} (es : List (K × V)) (k : K) (old : V)
      → Caches dec c es
      → NotIn k (map (λ (e : K × V). e.0) es)
      → get dec c k old ≡ ok (false, old, c)
  unfolding get
  get_miss {c} es k old h out =
      let missing : c.node_map k ≡ none =
        h.ring.keyed k
        ∙ where_none dec c.key k h.nodes (
            subst (NotIn k)
              (ap (map (λ (e : K × V). e.0)) (sym h.entries) ∙ keys_of_entries c h.nodes) out) in
      rw (missing, get)
