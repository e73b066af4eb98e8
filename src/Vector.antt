-- ===== src/Vector.antt =====
-- Data Structure/DataStructure/Vector.hpp: the growing array `MContainer::Vector<T>`.
-- A method returns the new vector, or its result; a null `m_element` and an array of no cells are
-- both the empty list of cells, since no method tells them apart. `T` is copied byte by byte
-- (`memcpy`), so it stands for a trivially copyable type.
pub mod Holds
pub mod Growth
pub mod Insert
pub mod Remove
pub mod Erase
pub mod Read
pub mod Edit
mod Tests
use learn_space.Base.{
  ℕ, zero, suc, ◌+◌, ◌-◌, ◌/◌, Bool, true, false, ◌&&◌, ◌||◌, Option, none, some, [], ◌∷◌,
  if◌then◌else◌, ltb, leb, ◌==◌, replicate, Outcome, ok, aborts, diverges, ◌>>=◌, ◌>>◌, throw_if,
  assert, no_except, Cells, read, write, memcpy, memmove,
}
use learn_space.Base.Word.{add_word, sub_word}

-- `m_maxSize` of `ContainerBase`
abbrev pub max_size : ℕ
max_size = 0xFF00_0000

-- `m_stepUint`
abbrev pub step_unit : ℕ
step_unit = 10

pub record Vector {ℓ} (A : Type ℓ) : Type ℓ where
  pub element : Cells A
  pub size : ℕ
  pub step : ℕ
  pub capacity : ℕ

module _ {ℓ} {A : Type ℓ} where
  -- `Vector(uint size)`: the argument is the capacity
  unfoldable pub construct : ℕ → Outcome (Vector A)
  construct size = do
    assert (leb size max_size)
    ok (record { element = replicate size none; size = 0; step = step_unit; capacity = size })

  -- `Vector(const Vector& t)`
  unfoldable pub copy : Vector A → Outcome (Vector A)
  copy t = do
    cells ← memcpy (replicate t.capacity none) t.element t.size
    ok (record t { element = cells })

  -- `Vector(Vector&& t)`: the new vector, and what is left in `t`
  unfoldable pub move : Vector A → Vector A × Vector A
  move t = (t, record t { element = []; size = 0; capacity = 0 })

  -- the room that `append` and `insert` make when the array is full
  unfoldable pub grow : Vector A → Outcome (Vector A)
  grow v = do
    assert (leb (add_word v.capacity 1) max_size)
    let wanted = add_word v.capacity v.step
    let cap = if ltb max_size wanted then max_size else wanted
    cells ← memcpy (replicate cap none) v.element v.size
    ok (record v { element = cells; capacity = cap })

  unfoldable pub append : Vector A → A → Outcome (Vector A)
  unfolding grow
  append v t = do
    w ← (if ltb v.capacity (add_word v.size 1) then grow v else ok v)
    cells ← write w.element w.size t
    ok (record w { element = cells; size = add_word w.size 1 })

  -- `removeAt(pos, len)`
  unfoldable pub remove_range : Vector A → ℕ → ℕ → Outcome (Vector A)
  remove_range v pos len = if ltb v.size pos then ok v else do
    let n = if ltb v.size (add_word len pos) then sub_word v.size pos else len
    let range = add_word pos n
    cells ← memmove v.element pos range (sub_word v.size range)
    ok (record v { element = cells; size = sub_word v.size n })

  -- `removeAt(pos)`
  unfoldable pub remove_at : Vector A → ℕ → Outcome (Vector A)
  remove_at v pos = remove_range v pos 1

  -- the loop of `insert`, by the rounds left in `count`
  unfoldable pub shift : ℕ → Cells A → ℕ → Outcome (Cells A)
  shift zero p move_pos = ok p
  shift (suc count) p move_pos = do
    x ← read p (sub_word move_pos 1)
    p' ← write p move_pos x
    shift count p' (sub_word move_pos 1)

  unfoldable pub insert : Vector A → ℕ → A → Outcome (Vector A)
  insert v pos t = if ltb (add_word v.size 1) pos then ok v else do
    w ← (if ltb v.capacity (add_word v.size 1) then grow v else ok v)
    moved ← shift (sub_word w.size pos) w.element w.size
    cells ← write moved pos t
    ok (record w { element = cells; size = add_word w.size 1 })

  unfoldable pub at : Vector A → ℕ → Outcome A
  at v pos = do throw_if (leb v.size pos); read v.element pos

  -- `operator[]` is `noexcept`
  unfoldable pub subscript : Vector A → ℕ → Outcome A
  subscript v pos = no_except (do throw_if (leb v.size pos); read v.element pos)

  unfoldable pub first : Vector A → Outcome A
  first v = do throw_if (v.size == 0); read v.element 0

  unfoldable pub last : Vector A → Outcome A
  last v = do throw_if (v.size == 0); read v.element (sub_word v.size 1)

  unfoldable pub clear : Vector A → Vector A
  clear v = record { element = []; size = 0; step = step_unit; capacity = 0 }

  unfoldable pub set_step : Vector A → ℕ → Vector A
  set_step v step = record v { step = step }

  -- `isEmpty` converts `m_size` to `bool`
  unfoldable pub is_empty : Vector A → Bool
  is_empty v = if v.size == 0 then false else true

  unfoldable pub remove_first : Vector A → Outcome (Vector A)
  remove_first v = remove_at v 0

  unfoldable pub remove_last : Vector A → Outcome (Vector A)
  remove_last v = remove_at v (sub_word v.size 1)

  unfoldable pub swap : Vector A → ℕ → ℕ → Outcome (Vector A)
  swap v first second =
      if first == second || leb v.size first || leb v.size second then ok v else do
        tmp ← read v.element first
        other ← read v.element second
        cells ← write v.element first other
        cells' ← write cells second tmp
        ok (record v { element = cells' })

  -- the loop of `reverse`, by the rounds left before `m_size / 2`
  unfoldable pub reverse_loop : ℕ → Vector A → ℕ → Outcome (Vector A)
  reverse_loop zero v i = ok v
  reverse_loop (suc rounds) v i = do
    tmp ← read v.element i
    other ← read v.element (sub_word (sub_word v.size 1) i)
    cells ← write v.element i other
    cells' ← write cells (sub_word (sub_word v.size 1) i) tmp
    reverse_loop rounds (record v { element = cells' }) (i + 1)

  unfoldable pub reverse : Vector A → Outcome (Vector A)
  unfolding is_empty
  reverse v = if is_empty v then ok v else reverse_loop (v.size / 2) v 0

  -- the cells of `new T[n]{ t }`, with `none` for the exception of a list longer than the array;
  -- `zeroed` is the value `T{}`
  unfoldable pub new_list : A → ℕ → A → Option (Cells A)
  new_list zeroed zero t = none
  new_list zeroed (suc n) t = some (some t ∷ replicate n (some zeroed))

  -- `resize(size, t)` is `noexcept`
  unfoldable pub resize : A → Vector A → ℕ → A → Outcome (Vector A)
  unfolding new_list
  resize zeroed v size t = elim (new_list zeroed size t) [
    | none ↦ aborts
    | some cells ↦ ok (record (clear v) { element = cells; size = size; capacity = size })
  ]

  -- `==` of the element type
  module _ (eq : A → A → Bool) where
    -- the loop of `removeOne`, on fuel
    unfoldable pub remove_loop : ℕ → Vector A → A → Bool → ℕ → Outcome (Vector A)
    remove_loop zero v t only_one i = diverges
    remove_loop (suc fuel) v t only_one i =
        if ltb i v.size
        then (do
          x ← read v.element i
          w ← (if eq x t then remove_at v i else ok v)
          let rest = remove_loop fuel w t only_one (i + 1)
          if eq x t && only_one then ok w else rest)
        else ok v

    unfoldable pub remove_one : Vector A → A → ℕ → Bool → Outcome (Vector A)
    unfolding remove_loop
    remove_one v t pos only_one =
        if leb v.size pos then ok v else remove_loop (v.size + 1) v t only_one 0

    -- the loop of `contains`, by the rounds left before `m_size`
    unfoldable pub contains_loop : ℕ → Vector A → A → ℕ → Outcome Bool
    contains_loop zero v t pos = ok false
    contains_loop (suc rounds) v t pos = do
      x ← read v.element pos
      let rest = contains_loop rounds v t (pos + 1)
      if eq t x then ok true else rest

    unfoldable pub contains : Vector A → A → ℕ → Outcome Bool
    unfolding contains_loop
    contains v t pos = contains_loop (v.size - pos) v t pos

    -- the loop of `find`; `none` stands for `m_nopos`, which the source does not define
    unfoldable pub find_loop : ℕ → Vector A → A → ℕ → Outcome (Option ℕ)
    find_loop zero v t pos = ok none
    find_loop (suc rounds) v t pos = do
      x ← read v.element pos
      let rest = find_loop rounds v t (pos + 1)
      if eq x t then ok (some pos) else rest

    unfoldable pub find : Vector A → A → ℕ → Outcome (Option ℕ)
    unfolding find_loop
    find v t pos = find_loop (v.size - pos) v t pos
