-- ===== src/Stack.antt =====
-- Data Structure/DataStructure/Stack.hpp: `MContainer::Stack<T>` over `Vector<T>`.
-- `m_top` is an `int`, kept as its 32 bits: -1 is `2 ^ 32 - 1`.
pub mod Holds
mod Tests
use learn_space.Base.{
  ℕ, ◌-◌, ◌^◌, Bool, true, false, Outcome, ok, ◌>>=◌, ◌>>◌, defined, ◌==◌, if◌then◌else◌,
}
use learn_space.Base.Word.{word, add_word, sub_word}
use learn_space.Vector
use learn_space.Vector.{Vector}

-- `m_npos`
abbrev pub npos : ℕ
npos = word - 1

pub record Stack {ℓ} (A : Type ℓ) : Type ℓ where
  pub base : Vector A
  pub top_index : ℕ

module _ {ℓ} {A : Type ℓ} where
  unfoldable pub construct : Outcome (Stack A)
  construct = do v ← Vector.construct 10; ok (record { base = v; top_index = npos })

  -- `Stack(const Stack& t)`
  unfoldable pub copy : Stack A → Outcome (Stack A)
  copy t = do v ← Vector.copy t.base; ok (record { base = v; top_index = t.top_index })

  unfoldable pub is_empty : Stack A → Bool
  is_empty s = s.top_index == npos

  -- `m_top` converted to `uint`
  unfoldable pub size : Stack A → ℕ
  size s = s.top_index

  unfoldable pub top : Stack A → Outcome A
  top s = Vector.last s.base

  -- `m_top++` overflows at the largest `int`.
  unfoldable pub push : Stack A → A → Outcome (Stack A)
  push s t = do
    v ← Vector.append s.base t
    defined (if s.top_index == 2 ^ 31 - 1 then false else true)
    ok (record { base = v; top_index = add_word s.top_index 1 })

  unfoldable pub pop : Stack A → Outcome (A × Stack A)
  pop s = do
    t ← Vector.last s.base
    v ← Vector.remove_at s.base s.top_index
    ok (t, record { base = v; top_index = sub_word s.top_index 1 })

  unfoldable pub clear : Stack A → Stack A
  clear s = record { base = Vector.clear s.base; top_index = npos }

  unfoldable pub subscript : Stack A → ℕ → Outcome A
  subscript s pos = Vector.subscript s.base pos
