-- ===== src/Queue.antt =====
-- Data Structure/DataStructure/Queue.hpp: `Queue<T>`, nodes linked behind a head that holds no
-- element, and `SQueue<T>` over it. The nodes are kept field by field, as those of the cache;
-- 0 is the null pointer. The overloads of `pushBack` and `pushFront` for a value to move from are
-- those for one to copy; `pushFront(const T&)` names an undeclared `m_node`, and is the other one.
pub mod Ends
pub mod Behind
pub mod Tests
use learn_space.Base.{
  Ptr, update, ℕ, zero, suc, ◌+◌, Bool, true, false, Outcome, ok, diverges, ◌>>=◌, ◌>>◌, defined,
  assert, throw_if, if◌then◌else◌, ◌==◌, leb,
}
use learn_space.Base.Word.{add_word, sub_word}
use learn_space.Nodes.{
  Chained, next_of, previous_of, data_of, set_next, set_previous, delete, new_node, head_only,
}
use learn_space.Vector.{max_size}

abbrev pub Queue {ℓ} : Type ℓ → Type ℓ
Queue T = Chained T

module _ {ℓ} {T : Type ℓ} where
  unfoldable pub construct : T → Queue T
  unfolding head_only
  construct t = head_only t

  unfoldable pub is_empty : Queue T → Bool
  is_empty c = c.size == 0

  unfoldable pub push_back : Queue T → T → Outcome (Queue T)
  push_back c t = do
    assert (leb (add_word c.size 1) max_size)
    let node = c.fresh
    let c1 = new_node c t
    c3 ←
        (if c1.tail_node == 0
          then (do c2 ← set_previous c1 node c1.head_node; set_next c2 c1.head_node node)
          else do c2 ← set_previous c1 node c1.tail_node; set_next c2 c1.tail_node node)
    ok (record c3 { tail_node = node; size = add_word c3.size 1 })

  unfoldable pub push_front : Queue T → T → Outcome (Queue T)
  push_front c t = do
    assert (leb (add_word c.size 1) max_size)
    let node = c.fresh
    let c1 = new_node c t
    c5 ←
        (if c1.tail_node == 0
          then (do
            c2 ← set_next c1 c1.head_node node
            c3 ← set_previous c2 node c1.head_node
            ok (record c3 { tail_node = node }))
          else do
            first ← next_of c1 c1.head_node
            c2 ← set_next c1 node first
            c3 ← set_next c2 c1.head_node node
            behind ← next_of c3 node
            c4 ← set_previous c3 behind node
            set_previous c4 node c1.head_node)
    ok (record c5 { size = add_word c5.size 1 })

  unfoldable pub pop_back : Queue T → Outcome (T × Queue T)
  pop_back c = do
    throw_if (c.size == 0)
    let ptr = c.tail_node
    t ← data_of c ptr
    before ← previous_of c ptr
    c2 ←
        (if before == c.head_node
          then set_next (record c { tail_node = 0 }) c.head_node 0
          else set_next (record c { tail_node = before }) before 0)
    c3 ← delete c2 ptr
    ok (t, record c3 { size = sub_word c3.size 1 })

  unfoldable pub pop_front : Queue T → Outcome (T × Queue T)
  pop_front c = do
    throw_if (c.size == 0)
    ptr ← next_of c c.head_node
    t ← data_of c ptr
    c2 ←
        (if ptr == c.tail_node
          then (do c1 ← set_next c c.head_node 0; ok (record c1 { tail_node = 0 }))
          else do
            behind ← next_of c ptr
            c1 ← set_next c c.head_node behind
            set_previous c1 behind c.head_node)
    c3 ← delete c2 ptr
    ok (t, record c3 { size = sub_word c3.size 1 })

  -- `SQueue`
  unfoldable pub enqueue : Queue T → T → Outcome (Queue T)
  enqueue c t = push_back c t

  unfoldable pub dequeue : Queue T → Outcome (T × Queue T)
  dequeue c = pop_front c

  unfoldable pub head : Queue T → Outcome T
  head c = do throw_if (c.size == 0); first ← next_of c c.head_node; data_of c first

  unfoldable pub tail : Queue T → Outcome T
  tail c = do throw_if (c.size == 0); data_of c c.tail_node
