-- ===== src/LinkedList.antt =====
-- Data Structure/DataStructure/List.hpp: `List<T>`, nodes linked behind a head. The copies and
-- moves name variables that are not declared, and are left out; so are the iterators.
pub mod Find
pub mod Ends
pub mod Middle
pub mod Insert
pub mod Front
pub mod Whole
pub mod Swap
pub mod Search
pub mod Range
mod Tests
use learn_space.Base.{
  ℕ, zero, suc, ◌/◌, Bool, true, false, Outcome, ok, diverges, ◌>>=◌, ◌>>◌, defined, throw_if,
  no_except, if◌then◌else◌, ◌==◌, leb, ltb, Ptr, update,
}
use learn_space.Base.Word.{add_word, sub_word}
use learn_space.Nodes.{
  Chained, next_of, previous_of, data_of, set_next, set_previous, delete, new_node, head_only,
}
use learn_space.Vector.{max_size}

abbrev pub LinkedList {ℓ} : Type ℓ → Type ℓ
LinkedList T = Chained T

module _ {ℓ} {T : Type ℓ} where
  unfoldable pub construct : T → LinkedList T
  unfolding head_only
  construct t = head_only t

  -- The loop of `findNode`, from `ptr` at the index `node_pos`.
  pub find_loop : LinkedList T → ℕ → Bool → Ptr → ℕ → ℕ → Outcome Ptr
  find_loop c zero next_move ptr node_pos pos = diverges
  find_loop c (suc fuel) next_move ptr node_pos pos =
      let forth = (do q ← next_of c ptr; find_loop c fuel next_move q (add_word node_pos 1) pos) in
      let back = (do
        q ← previous_of c ptr
        find_loop c fuel next_move q (sub_word node_pos 1) pos) in
      if ptr == 0
      then ok 0
      else if node_pos == pos
      then ok ptr
      else if next_move
      then forth
      else back

  pub find_node : LinkedList T → ℕ → Outcome Ptr
  find_node c pos =
      if leb c.size pos
      then ok 0
      else if ltb pos (c.size / 2)
      then (do first ← next_of c c.head_node; find_loop c (suc c.size) true first 0 pos)
      else find_loop c (suc c.size) false c.tail_node (sub_word c.size 1) pos

  pub at : LinkedList T → ℕ → Outcome T
  at c pos = do throw_if (leb c.size pos); p ← find_node c pos; data_of c p

  pub append : LinkedList T → T → Outcome (LinkedList T)
  append c t =
      let node = c.fresh in
      let c1 = new_node c t in
      if leb max_size (add_word c.size 1)
      then ok c
      else if c.size == 0
      then (do
        c2 ← set_next c1 c1.head_node node
        c3 ← set_previous c2 node c1.head_node
        ok (record c3 { tail_node = node; size = add_word c3.size 1 }))
      else do
        c2 ← set_next c1 c1.tail_node node
        c3 ← set_previous c2 node c1.tail_node
        ok (record c3 { tail_node = node; size = add_word c3.size 1 })

  pub remove_at : LinkedList T → ℕ → Outcome (LinkedList T)
  remove_at c pos = if leb c.size pos then ok c else do
    ptr ← find_node c pos
    c1 ←
        (if ptr == c.tail_node
          then (do
            before ← previous_of c ptr
            ok (record c { tail_node = if before == c.head_node then 0 else before }))
          else ok c)
    before ← previous_of c1 ptr
    behind ← next_of c1 ptr
    c2 ← set_next c1 before behind
    after ← next_of c2 ptr
    c3 ← (if after == 0 then ok c2 else do back ← previous_of c2 ptr; set_previous c2 after back)
    c4 ← delete c3 ptr
    ok (record c4 { size = sub_word c4.size 1 })

  -- `while (moveLen--) ptr = node->next;`
  pub move_loop : LinkedList T → ℕ → Ptr → Ptr → Outcome Ptr
  move_loop c zero node ptr = ok ptr
  move_loop c (suc n) node ptr = do p ← next_of c node; move_loop c n node p

  -- `while (node != tail)`
  pub delete_loop : LinkedList T → ℕ → Ptr → Ptr → Outcome (LinkedList T)
  delete_loop c zero node tail = diverges
  delete_loop c (suc fuel) node tail =
      let rest = (do ptr ← next_of c node; c1 ← delete c node; delete_loop c1 fuel ptr tail) in
      if node == tail then ok c else rest

  pub remove_range : LinkedList T → ℕ → ℕ → Outcome (LinkedList T)
  remove_range c pos len = if leb c.size pos then ok c else do
    let n = if leb c.size (add_word pos len) then sub_word c.size pos else len
    node ← find_node c pos
    tail ← (if add_word pos n == c.size then ok c.tail_node else move_loop c n node node)
    c1 ←
        (if tail == c.tail_node
          then (do
            before ← previous_of c node
            ok (record c { tail_node = if before == c.head_node then 0 else before }))
          else ok c)
    before ← previous_of c1 node
    behind ← next_of c1 tail
    c2 ← set_next c1 before behind
    after ← next_of c2 tail
    c3 ← (if after == 0 then ok c2 else do back ← previous_of c2 node; set_previous c2 tail back)
    c4 ← delete_loop c3 (suc c.size) node tail
    c5 ← delete c4 tail
    ok (record c5 { size = sub_word c5.size n })

  pub insert : LinkedList T → ℕ → T → Outcome (LinkedList T)
  insert c pos t =
      let node = c.fresh in
      let c1 = new_node c t in
      if leb (add_word c.size 1) pos
      then ok c
      else if leb max_size (add_word c.size 1)
      then ok c
      else do
        c5 ←
            (if pos == 0
              then (do
                next_ptr ← next_of c1 c1.head_node
                c3 ←
                    (if next_ptr == 0
                      then (do
                        c2 ← set_next c1 c1.head_node node
                        ok (record c2 { tail_node = node }))
                      else do c2 ← set_next c1 node next_ptr; set_previous c2 next_ptr node)
                set_previous c3 node c1.head_node)
              else if pos == c.size
              then (do
                c2 ← set_next c1 c1.tail_node node
                c3 ← set_previous c2 node c1.tail_node
                ok (record c3 { tail_node = node }))
              else do
                pos_node ← find_node c1 pos
                before ← previous_of c1 pos_node
                c2 ← set_next c1 before node
                back ← previous_of c2 pos_node
                c3 ← set_previous c2 node back
                c4 ← set_previous c3 pos_node node
                set_next c4 node pos_node)
        ok (record c5 { size = add_word c5.size 1 })

  pub clear_loop : LinkedList T → ℕ → Ptr → Outcome (LinkedList T)
  clear_loop c zero ptr = diverges
  clear_loop c (suc fuel) ptr =
      let rest = (do node ← next_of c ptr; c1 ← delete c ptr; clear_loop c1 fuel node) in
      if ptr == 0 then ok c else rest

  pub clear : LinkedList T → Outcome (LinkedList T)
  clear c = do
    ptr ← next_of c c.head_node
    c1 ← clear_loop c (suc c.size) ptr
    set_next (record c1 { size = 0; tail_node = 0 }) c.head_node 0

  -- The destructor
  pub destroy : LinkedList T → Outcome (LinkedList T)
  destroy c = do c1 ← clear c; delete c1 c1.head_node

  pub swap : LinkedList T → ℕ → ℕ → Outcome (LinkedList T)
  swap c first second = no_except (do
    throw_if (leb c.size first)
    throw_if (leb c.size second)
    first_node ← find_node c first
    second_node ← find_node c second
    held ← data_of c first_node
    other ← data_of c second_node
    let c1 = record c { value = update c.value first_node other }
    ok (record c1 { value = update c1.value second_node held }))

  pub is_empty : LinkedList T → Bool
  is_empty c = if c.size == 0 then false else true

-- `same` is the `operator==` of the elements.
module _ {ℓ} {T : Type ℓ} (same : T → T → Bool) where
  pub remove_loop : LinkedList T → ℕ → T → Bool → Ptr → Outcome (LinkedList T)
  remove_loop c zero t only_one node = diverges
  remove_loop c (suc fuel) t only_one node =
      let rest =
        λ (c1 : LinkedList T) (next_node : Ptr). remove_loop c1 fuel t only_one next_node in
      if node == 0 then ok c else do
        next_node ← next_of c node
        held ← data_of c node
        if same held t
            then (do
              before ← previous_of c node
              c1 ← set_next c before next_node
              c2 ← (if next_node == 0 then ok c1 else set_previous c1 next_node before)
              c3 ← delete c2 node
              let c4 = record c3 { size = sub_word c3.size 1 }
              if only_one then ok c4 else rest c4 next_node)
            else rest c next_node

  pub remove_one : LinkedList T → T → ℕ → Bool → Outcome (LinkedList T)
  remove_one c t pos only_one =
      if leb c.size pos
      then ok c
      else do start ← find_node c pos; remove_loop c (suc c.size) t only_one start
