-- ===== src/Lru.antt =====
-- Project/Cache/LRU.hpp: `LRUContainers`, a ring of nodes with a hash map into it, and `LRUCache`.
-- Memory is kept field by field: `next_node p` is the field `nextNode_` of the node at address
-- `p`. Reading or writing a field of an address that holds no node is undefined. Addresses are
-- given out in order and not used again; 0 is the null pointer. The `std::unordered_map` is a
-- function from keys to the pointers stored. `put` is the overload that copies its arguments,
-- `put_moving` the one that moves from them.
pub mod Chain
pub mod Surgery
pub mod Ring
pub mod Move
pub mod Get
pub mod Put
pub mod Remove
pub mod Cache
pub mod Serve
pub mod Clear
pub mod Moving
mod Tests
use learn_space.Base.{
  Ptr, update, ℕ, zero, suc, ◌+◌, Bool, true, false, Option, none, some, Outcome, ok, diverges,
  ◌>>=◌, ◌>>◌, defined, if◌then◌else◌, ◌==◌, ltb,
}
use mathlib.Core.Logic.{ite}
use learn_space.Base.Word.{add_word, sub_word}

pub record Containers {ℓ} (K V : Type ℓ) : Type ℓ where
  pub live : Ptr → Bool
  pub key : Ptr → K
  pub value : Ptr → V
  pub pre_node : Ptr → Ptr
  pub next_node : Ptr → Ptr
  pub fresh : Ptr
  pub node_map : K → Option Ptr
  pub sentry : Ptr
  pub size : ℕ

-- `m_nodeMap[k] = p`, and with `none` the entry erased
abbrev pub map_set {ℓ} :
    {K : Type ℓ} → Discrete K → (K → Option Ptr) → K → Option Ptr → K → Option Ptr
map_set dec m k p j = ite (dec k j) p (m j)

module _ {ℓ} {K V : Type ℓ} where
  -- `p->preNode_` and `p->nextNode_`
  abbrev pub pre_of : Containers K V → Ptr → Outcome Ptr
  pre_of c p = do defined (c.live p); ok (c.pre_node p)

  abbrev pub next_of : Containers K V → Ptr → Outcome Ptr
  next_of c p = do defined (c.live p); ok (c.next_node p)

  -- `p->preNode_ = q` and `p->nextNode_ = q`
  abbrev pub set_pre : Containers K V → Ptr → Ptr → Outcome (Containers K V)
  set_pre c p q = do defined (c.live p); ok (record c { pre_node = update c.pre_node p q })

  abbrev pub set_next : Containers K V → Ptr → Ptr → Outcome (Containers K V)
  set_next c p q = do defined (c.live p); ok (record c { next_node = update c.next_node p q })

  -- `delete p`
  abbrev pub delete : Containers K V → Ptr → Outcome (Containers K V)
  delete c p = do defined (c.live p); ok (record c { live = update c.live p false })

  -- `new LRUNode(key, value)`
  unfoldable pub new_node : Containers K V → K → V → Ptr × Containers K V
  new_node c k v = (
    c.fresh,
    record c {
      live = update c.live c.fresh true;
      key = update c.key c.fresh k;
      value = update c.value c.fresh v;
      pre_node = update c.pre_node c.fresh 0;
      next_node = update c.next_node c.fresh 0;
      fresh = c.fresh + 1;
    },
  )

  -- The constructor; `k` and `v` are the values `{}` of the two types.
  unfoldable pub construct : K → V → Containers K V
  construct k v = record {
    live = update (λ _. false) 1 true;
    key = λ _. k;
    value = λ _. v;
    pre_node = λ _. 1;
    next_node = λ _. 1;
    fresh = 2;
    node_map = λ _. none;
    sentry = 1;
    size = 0;
  }

  unfoldable pub insert_to_head : Containers K V → Ptr → Outcome (Containers K V)
  insert_to_head c node = do
    head ← next_of c c.sentry
    c1 ← set_next c node head
    c2 ← set_pre c1 node c.sentry
    c3 ← set_next c2 c.sentry node
    behind ← next_of c3 node
    set_pre c3 behind node

  unfoldable pub move_node_to_head : Containers K V → Ptr → Outcome (Containers K V)
  move_node_to_head c node = do
    before ← pre_of c node
    if before == c.sentry then ok c else do
      after ← next_of c node
      c1 ← set_next c before after
      after1 ← next_of c1 node
      before1 ← pre_of c1 node
      c2 ← set_pre c1 after1 before1
      insert_to_head c2 node

  -- the loop of `clear`, on fuel
  unfoldable pub clear_loop : ℕ → Containers K V → Ptr → Outcome (Containers K V)
  clear_loop zero c node = diverges
  clear_loop (suc fuel) c node = if node == c.sentry then ok c else do
    after ← next_of c node
    before ← pre_of c after
    c1 ← delete c before
    clear_loop fuel c1 after

  unfoldable pub clear : ℕ → Containers K V → Outcome (Containers K V)
  clear fuel c = do
    first ← next_of c c.sentry
    c1 ← clear_loop fuel c first
    ok (record c1 { size = 0; node_map = λ _. none })

module _ {ℓ} {K V : Type ℓ} (dec : Discrete K) where
  unfoldable pub remove_last : Containers K V → Outcome (Containers K V)
  remove_last c = if c.size == 0 then ok c else do
    last ← pre_of c c.sentry
    before ← pre_of c last
    c1 ← set_next c before c.sentry
    before1 ← pre_of c1 last
    c2 ← set_pre c1 c.sentry before1
    defined (c2.live last)
    let erased = map_set dec c2.node_map (c2.key last) none
    delete (record c2 { node_map = erased; size = sub_word c2.size 1 }) last

  -- In the branch of a key that is there, `node` is declared again: what is stored in the map
  -- afterwards is the outer one, still null.
  unfoldable pub put : Containers K V → K → V → Outcome (Containers K V)
  put c k v = elim (c.node_map k) [
    | none ↦
        let (node, c1) = new_node c k v in
        do
          c2 ← insert_to_head c1 node
          ok (record c2 {
            size = add_word c2.size 1;
            node_map = map_set dec c2.node_map k (some node);
          })
    | some p ↦ do
      c1 ← move_node_to_head c p
      ok (record c1 { node_map = map_set dec c1.node_map k (some 0) })
  ]

  -- `put(Key&&, Value&&)`: `moved k` is what is left in a key `k` that was moved from.
  unfoldable pub put_moving : (K → K) → Containers K V → K → V → Outcome (Containers K V)
  put_moving moved c k v = elim (c.node_map k) [
    | none ↦
        let (node, c1) = new_node c k v in
        do
          c2 ← insert_to_head c1 node
          ok (record c2 {
            size = add_word c2.size 1;
            node_map = map_set dec c2.node_map (moved k) (some node);
          })
    | some p ↦ do
      c1 ← move_node_to_head c p
      ok (record c1 { node_map = map_set dec c1.node_map k (some 0) })
  ]

  -- `get` returns whether the key was found, and what is in `value` afterwards.
  unfoldable pub get : Containers K V → K → V → Outcome (Bool × V × Containers K V)
  get c k old = elim (c.node_map k) [
    | none ↦ ok (false, old, c)
    | some p ↦ do defined (c.live p); c1 ← move_node_to_head c p; ok (true, c.value p, c1)
  ]

-- `LRUCache`
pub record Lru {ℓ} (K V : Type ℓ) : Type ℓ where
  pub containers : Containers K V
  pub capacity : ℕ

module _ {ℓ} {K V : Type ℓ} where
  unfoldable pub construct_cache : K → V → ℕ → Lru K V
  construct_cache k v capacity = record { containers = construct k v; capacity = capacity }

module _ {ℓ} {K V : Type ℓ} (dec : Discrete K) where
  unfoldable pub put_cache : Lru K V → K → V → Outcome (Lru K V)
  put_cache l k v = do
    c ← put dec l.containers k v
    c' ← (if ltb l.capacity c.size then remove_last dec c else ok c)
    ok (record l { containers = c' })

  unfoldable pub put_cache_moving : (K → K) → Lru K V → K → V → Outcome (Lru K V)
  put_cache_moving moved l k v = do
    c ← put_moving dec moved l.containers k v
    c' ← (if ltb l.capacity c.size then remove_last dec c else ok c)
    ok (record l { containers = c' })

  unfoldable pub get_cache : Lru K V → K → V → Outcome (Bool × V × Lru K V)
  get_cache l k old = do
    (found, value, c) ← get dec l.containers k old
    ok (found, value, record l { containers = c })
