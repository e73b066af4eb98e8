-- ===== src/Lru/Tests.antt =====
-- A cache of LRU.hpp with two entries, on which its theorems are used.
use learn_space.Base.{
  NotIn, if◌then◌else◌, ℕ, ◌≡◌, refl, true, false, some, ◌≢◌, [], ◌∷◌, arith, ok, faults, ◌==◌,
}
use native.Mathlib.Decide.{ℕ_discrete}
use learn_space.Lru.Ring.{Caches, where_is}
use learn_space.Lru.{Containers, Lru, put, get, construct_cache}
use learn_space.Lru.Put.{put_again}
use learn_space.Lru.Cache.{Cached, keys, construct_cache-Cached}
use learn_space.Lru.Serve.{store, fetch, pick, serve, run, run-serve}

-- The sentry is node 1; node 3 is the head and holds 20 under 8, node 2 holds 10 under 7.
abbrev two : Containers ℕ ℕ
two = record {
  live = λ p. if p == 0 then false else true;
  key = λ p. if p == 3 then 8 else 7;
  value = λ p. if p == 3 then 20 else 10;
  pre_node = λ p. if p == 1 then 2 else if p == 2 then 3 else 1;
  next_node = λ p. if p == 1 then 3 else if p == 2 then 1 else 2;
  fresh = 4;
  node_map = λ k. where_is ℕ_discrete (λ p. if p == 3 then 8 else 7) k (3 ∷ 2 ∷ []);
  sentry = 1;
  size = 2;
}

two-Caches : Caches ℕ_discrete two ((8, 20) ∷ (7, 10) ∷ [])
two-Caches = record {
  nodes = 3 ∷ 2 ∷ [];
  ring = record {
    chain = (refl, refl, (refl, refl, (refl, refl)));
    distinct = (((λ e. omega arith), tt), (tt, tt));
    off = ((λ e. omega arith), ((λ e. omega arith), tt));
    live = (refl, (refl, tt));
    live_sentry = refl;
    null = refl;
    below = (omega arith, (omega arith, tt));
    below_sentry = omega arith;
    keyed = λ k. refl;
    keys = (((λ e. omega arith), tt), (tt, tt));
    sized = refl;
  };
  entries = refl;
}

abbrev pair_cache : Lru ℕ ℕ
pair_cache = record { containers = two; capacity = 2 }

pair-Cached : Cached ℕ_discrete pair_cache ((8, 20) ∷ (7, 10) ∷ [])
pair-Cached = record { caches = two-Caches; fits = omega arith; small = omega arith }

absent : NotIn 9 (keys {V = ℕ} ℕ_discrete ((8, 20) ∷ (7, 10) ∷ []))
unfolding keys
absent = ((λ e. omega arith), ((λ e. omega arith), tt))

put_again_example :
    (c : Containers ℕ ℕ) × (put ℕ_discrete two 7 30 ≡ ok c)
    × (c.node_map 7 ≡ some 0)
    × (c.live 0 ≡ false)
    × ((j : ℕ) → j ≢ 7 → c.node_map j ≡ two.node_map j)
    × Caches ℕ_discrete (record c { node_map = two.node_map }) ((7, 10) ∷ (8, 20) ∷ [])
    × ((old : ℕ) → get ℕ_discrete c 7 old ≡ faults)
    × ((w : ℕ) → put ℕ_discrete c 7 w ≡ faults)
put_again_example = put_again ℕ_discrete ((8, 20) ∷ []) [] 7 10 30 two-Caches

-- A new cache of capacity 2: the entry of key 1 is lost to the third `put`, since `get` has made
-- the one of key 2 the more recent.
run_example :
    (l : Lru ℕ ℕ) × (run ℕ_discrete
        (construct_cache 0 0 2)
        (store 2 20 ∷ store 1 10 ∷ fetch 2 0 ∷ store 3 30 ∷ fetch 1 5 ∷ fetch 2 5 ∷ [])
      ≡ ok ((true, 20) ∷ (false, 5) ∷ (true, 20) ∷ [], l))
    × Cached ℕ_discrete l ((2, 20) ∷ (3, 30) ∷ [])
unfolding serve pick construct_cache ℕ_discrete
run_example =
    run-serve ℕ_discrete
      (store 2 20 ∷ store 1 10 ∷ fetch 2 0 ∷ store 3 30 ∷ fetch 1 5 ∷ fetch 2 5 ∷ [])
      (construct_cache-Cached ℕ_discrete 0 0 2 (omega arith)) refl
