-- ===== src/Lru/Serve.antt =====
-- A series of calls of `LRUCache` (LRU.hpp), and the replies that a list of entries would give.
use learn_space.Base.{
  NotIn, ℕ, suc, ◌≡◌, refl, Bool, true, false, Option, none, some, List, [], ◌∷◌, ◌++◌, length,
  take, arith, ap, ◌∙◌, sym, Outcome, ok, ◌>>=◌, ◌⊎◌, inl, inr, length-append,
}
use mathlib.Core.Path.{subst}
use mathlib.Core.Logic.{if_pos, if_neg, ite}
use mathlib.Core.Option
use mathlib.Core.Option.{some-injective}
use learn_space.Lru.{Lru, put_cache, get_cache}
use learn_space.Lru.Get.{get_hit, get_miss}
use learn_space.Lru.Cache.{Cached, keys, put_cache_new}

-- A call: the value given to `get` is what the caller's variable holds before.
pub data Request {ℓ} (K V : Type ℓ) : Type ℓ where
  store : K → V → Request K V
  fetch : K → V → Request K V

-- What is under `Option.map`.
map-some {ℓ κ} :
    {A : Type ℓ} {B : Type κ} (f : A → B) (o : Option A) (b : B)
    → Option.map f o ≡ some b
    → (a : A) × (o ≡ some a) × (f a ≡ b)
map-some f none b e = absurd (cc e)
map-some f (some a) b e = (a, refl, cc e)

module _ {ℓ} {K V : Type ℓ} (dec : Discrete K) where
  abbrev pub skipped : K × V → V × List (K × V) → V × List (K × V)
  skipped e (w, rest) = (w, e ∷ rest)

  abbrev pub answered : {E : Type ℓ} → Bool × V → List (Bool × V) × E → List (Bool × V) × E
  answered r (replies, left) = (r ∷ replies, left)

  -- The value under a key, and the entries without it.
  unfoldable pub pick : K → List (K × V) → Option (V × List (K × V))
  pick k [] = none
  pick k ((j, v) ∷ es) = ite (dec j k) (some (v, es)) (Option.map (skipped (j, v)) (pick k es))

  -- The replies that the entries give, most recent first: `get` moves an entry to the front, and
  -- a `put` that exceeds the capacity loses the last. A `put` of a key that is there has none.
  unfoldable pub serve :
      ℕ → List (K × V) → List (Request K V) → Option (List (Bool × V) × List (K × V))
  serve capacity es [] = some ([], es)
  serve capacity es (store k v ∷ rs) = elim (pick k es) [
    | none ↦ serve capacity (take capacity ((k, v) ∷ es)) rs
    | some _ ↦ none
  ]
  serve capacity es (fetch k old ∷ rs) = elim (pick k es) [
    | none ↦ Option.map (answered (false, old)) (serve capacity es rs)
    | some (v, others) ↦ Option.map (answered (true, v)) (serve capacity ((k, v) ∷ others) rs)
  ]

  -- The calls, one after another.
  unfoldable pub run : Lru K V → List (Request K V) → Outcome (List (Bool × V) × Lru K V)
  run l [] = ok ([], l)
  run l (store k v ∷ rs) = do l' ← put_cache dec l k v; run l' rs
  run l (fetch k old ∷ rs) = do
    (found, value, l') ← get_cache dec l k old
    (replies, left) ← run l' rs
    ok ((found, value) ∷ replies, left)

  -- Either a key is not there, or its entry is found.
  pick_cases :
      (k : K) (es : List (K × V))
      → ((pick k es ≡ none) × NotIn k (keys dec es))
        ⊎ ((xs : List (K × V)) × (v : V) × (ys : List (K × V)) × (es ≡ xs ++ (k, v) ∷ ys)
            × (pick k es ≡ some (v, xs ++ ys)))
  unfolding pick keys
  pick_cases k [] = inl (refl, tt)
  pick_cases k ((j, v) ∷ es) = elim (dec j k) [
    | yes same ↦ inr (
      [],
      v,
      es,
      ap (λ i. (i, v) ∷ es) same,
      if_pos (dec j k) same (some (v, es)) (Option.map (skipped (j, v)) (pick k es)),
    )
    | no other ↦
        let step =
          if_neg (dec j k) other (some (v, es)) (Option.map (skipped (j, v)) (pick k es)) in
        elim (pick_cases k es) [
          | inl (e, out) ↦
              inl (step ∙ ap (Option.map (skipped (j, v))) e, ((λ q. other (sym q)), out))
          | inr (xs, w, ys, split, e) ↦
              inr (
                (j, v) ∷ xs,
                w,
                ys,
                ap (◌∷◌ (j, v)) split,
                step ∙ ap (Option.map (skipped (j, v))) e,
              )
        ]
  ]

  same_size : (xs ys : List (K × V)) (e : K × V) → length (xs ++ e ∷ ys) ≡ suc (length (xs ++ ys))
  same_size xs ys e = omega (arith, length-append xs (e ∷ ys), length-append xs ys)

  -- `get` of a cache, on a key that is there.
  pub get_cache_hit :
      {l : Lru K V} (xs ys : List (K × V)) (k : K) (v old : V)
      → Cached dec l (xs ++ (k, v) ∷ ys)
      → (l' : Lru K V) × (get_cache dec l k old ≡ ok (true, v, l'))
        × (l'.capacity ≡ l.capacity)
        × Cached dec l' ((k, v) ∷ (xs ++ ys))
  unfolding get_cache
  get_cache_hit {l} xs ys k v old h =
      let (c, got, holds) = get_hit dec xs ys k v old h.caches in
      (
        record l { containers = c },
        rw got refl,
        refl,
        record {
          caches = holds;
          fits = omega (arith, same_size xs ys (k, v), h.fits);
          small = h.small;
        },
      )

  get_cache_miss :
      {l : Lru K V} (es : List (K × V)) (k : K) (old : V)
      → Cached dec l es
      → NotIn k (keys dec es)
      → get_cache dec l k old ≡ ok (false, old, l)
  unfolding get_cache keys
  get_cache_miss {l} es k old h out = rw (get_miss dec es k old h.caches out) refl

  -- A cache of a capacity below 2 ^ 32 - 1 gives the replies that its entries give, and holds the
  -- entries that are left, if no `put` is of a key that is there.
  pub run-serve :
      (rs : List (Request K V)) {l : Lru K V} {es left : List (K × V)} {replies : List (Bool × V)}
      → Cached dec l es
      → serve l.capacity es rs ≡ some (replies, left)
      → (l' : Lru K V) × (run l rs ≡ ok (replies, l')) × Cached dec l' left
  unfolding run serve
  run-serve [] {l} {es} h e =
      let same = some-injective _ _ e in
      (l, ap (λ o. ok (o.0, l)) same, subst (Cached dec l) (ap (λ o. o.1) same) h)
  run-serve (store k v ∷ rs) {l} {es} {left} {replies} h e = elim (pick_cases k es) [
    | inl (missing, out) ↦
        let (l1, put, same, h1) = put_cache_new dec k v h out in
        let step : serve l.capacity es (store k v ∷ rs)
            ≡ serve l.capacity (take l.capacity ((k, v) ∷ es)) rs =
          rw (missing, serve) refl in
        let (l', went, h') =
          run-serve rs h1
            (ap (λ n. serve n (take l.capacity ((k, v) ∷ es)) rs) same ∙ sym step ∙ e) in
        (l', rw put went, h')
    | inr (xs, w, ys, split, found) ↦
        let step : serve l.capacity es (store k v ∷ rs) ≡ none = rw (found, serve) refl in
        absurd (cc (step, e))
  ]
  run-serve (fetch k old ∷ rs) {l} {es} {left} {replies} h e = elim (pick_cases k es) [
    | inl (missing, out) ↦
        let step : serve l.capacity es (fetch k old ∷ rs)
            ≡ Option.map (answered (false, old)) (serve l.capacity es rs) =
          rw (missing, serve) refl in
        let (o, served, same) =
          map-some (answered (false, old)) (serve l.capacity es rs) (replies, left)
            (sym step ∙ e) in
        let (l', went, h') = run-serve rs h served in
        (
          l',
          rw (get_cache_miss es k old h out, went) (ap (λ o. ok (o.0, l')) same),
          subst (Cached dec l') (ap (λ o. o.1) same) h',
        )
    | inr (xs, v, ys, split, found) ↦
        let (l1, got, cap, h1) = get_cache_hit xs ys k v old (subst (Cached dec l) split h) in
        let step : serve l.capacity es (fetch k old ∷ rs)
            ≡ Option.map (answered (true, v)) (serve l.capacity ((k, v) ∷ (xs ++ ys)) rs) =
          rw (found, serve) refl in
        let (o, served, same) =
          map-some (answered (true, v)) (serve l.capacity ((k, v) ∷ (xs ++ ys)) rs) (replies, left)
            (sym step ∙ e) in
        let (l', went, h') =
          run-serve rs h1 (ap (λ n. serve n ((k, v) ∷ (xs ++ ys)) rs) cap ∙ served) in
        (
          l',
          rw (got, went) (ap (λ o. ok (o.0, l')) same),
          subst (Cached dec l') (ap (λ o. o.1) same) h',
        )
  ]
