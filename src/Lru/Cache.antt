-- ===== src/Lru/Cache.antt =====
-- `LRUCache` of LRU.hpp: its calls against a list of entries cut at the capacity.
use learn_space.Base.{
  NotIn, length-map, unsnoc, ℕ, ◌<◌, ◌≤◌, ◌+◌, ◌≡◌, refl, List, [], ◌∷◌, map, length, take, arith,
  ap, ◌∙◌, sym, ok, Bool-cases, inl, inr, ltb, ltb→lt, take_of_length-le, take-append,
}
use mathlib.Core.Path.{subst}
use learn_space.Base.Word.{word}
use learn_space.Lru.Ring.{Caches, where_is}
use learn_space.Lru.{Containers, Lru, construct, construct_cache, put_cache}
use learn_space.Lru.Put.{put_new}
use learn_space.Lru.Remove.{remove_last-Caches}

module _ {ℓ} {K V : Type ℓ} (dec : Discrete K) where
  -- A cache holds entries, no more than its capacity, the most recently used first.
  pub record Cached (l : Lru K V) (es : List (K × V)) : Type ℓ where
    pub caches : Caches dec l.containers es
    pub fits : length es ≤ l.capacity
    pub small : l.capacity + 1 < word

  unfoldable pub keys : List (K × V) → List K
  keys es = map (λ (e : K × V). e.0) es

  -- A new cache is empty.
  pub construct_cache-Cached :
      (k : K) (v : V) (capacity : ℕ)
      → capacity + 1 < word
      → Cached (construct_cache k v capacity) []
  unfolding construct_cache construct where_is
  construct_cache-Cached k v capacity small = record {
    caches = record {
      nodes = [];
      ring = record {
        chain = (refl, refl);
        distinct = tt;
        off = tt;
        live = tt;
        live_sentry = refl;
        null = refl;
        below = tt;
        below_sentry = omega arith;
        keyed = λ j. refl;
        keys = tt;
        sized = refl;
      };
      entries = refl;
    };
    fits = omega arith;
    small = small;
  }

  Caches-size : {c : Containers K V} {es : List (K × V)} → Caches dec c es → c.size ≡ length es
  Caches-size {c} h =
      h.ring.sized ∙ sym (length-map (λ p. (c.key p, c.value p)) h.nodes) ∙ ap length h.entries

  -- `put` of a key that is not there makes its entry the first, and drops the last one when there
  -- are more than the capacity.
  pub put_cache_new :
      {l : Lru K V} {es : List (K × V)} (k : K) (v : V)
      → Cached l es
      → NotIn k (keys es)
      → (l' : Lru K V) × (put_cache dec l k v ≡ ok l')
        × (l'.capacity ≡ l.capacity)
        × Cached l' (take l.capacity ((k, v) ∷ es))
  unfolding put_cache keys
  put_cache_new {l} {es} k v h out =
      let (c, run, holds) = put_new dec k v h.caches out (omega (arith, h.fits, h.small)) in
      let size = Caches-size holds in
      elim (Bool-cases (ltb l.capacity c.size)) [
        | inl over ↦
            let full : length es ≡ l.capacity =
              omega (arith, ltb→lt l.capacity c.size over, size, h.fits) in
            let (zs, z, split, many) = unsnoc (length es) ((k, v) ∷ es) refl in
            let (c', removed, left) =
              remove_last-Caches dec zs z (subst (Caches dec c) split holds)
                (omega (arith, h.small)) in
            let kept : take l.capacity ((k, v) ∷ es) ≡ zs =
              ap (take l.capacity) split ∙ take-append l.capacity zs (z ∷ []) (omega arith) in
            (
              record l { containers = c' },
              rw (run, over, removed),
              refl,
              subst (Cached (record l { containers = c' })) (sym kept)
                  (record { caches = left; fits = omega (arith, many); small = h.small }),
            )
        | inr under ↦
            let room : length es < l.capacity = ground (arith, size) in
            let kept : take l.capacity ((k, v) ∷ es) ≡ (k, v) ∷ es =
              take_of_length-le l.capacity ((k, v) ∷ es) (omega arith) in
            (
              record l { containers = c },
              rw (run, under),
              refl,
              subst (Cached (record l { containers = c })) (sym kept)
                  (record { caches = holds; fits = omega arith; small = h.small }),
            )
      ]
