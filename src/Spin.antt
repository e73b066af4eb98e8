-- ===== src/Spin.antt =====
-- Data Structure/DataStructure/SpinLock.hpp: `SpinLock`, and threads that use it.
-- The atomic flag is a bit, and each access of it one step, in any interleaving. A thread calls
-- `unlock` only while it has the lock.
pub mod Exclusion
mod Tests
use learn_space.Base.{ℕ, ◌+◌, Bool, true, false, List, ◌∷◌, ◌++◌, replicate, if◌then◌else◌, leb}

-- `SpinLock::m_count`
abbrev pub max_count : ℕ
max_count = 30

-- A thread outside; in the loop of `lock`, with its `count`; at `yield`; with the lock.
pub data Spinner : Type 0 where
  outside : Spinner
  spinning : ℕ → Spinner
  yielding : Spinner
  inside : Spinner

-- A step of a thread, with the flag before and after it: the call of `lock`; one round of its
-- loop; the return of `yield`; `unlock`.
unfoldable pub spin : Bool → Spinner → Bool × Spinner
spin state outside = (state, spinning 0)
spin state (spinning count) =
    if state
    then (true, if leb max_count (count + 1) then yielding else spinning (count + 1))
    else (true, inside)
spin state yielding = (state, spinning 0)
spin state inside = (false, outside)

pub record Lock : Type 0 where
  pub state : Bool
  pub threads : List Spinner

pub data Spins : Lock → Lock → Type 0 where
  spin_step :
      (state : Bool) (w : Spinner) (xs ys : List Spinner)
      → Spins
          (record { state = state; threads = xs ++ w ∷ ys })
          (record { state = (spin state w).0; threads = xs ++ (spin state w).1 ∷ ys })

-- What a new lock and `n` threads can come to.
unfoldable pub construct : ℕ → Lock
construct n = record { state = false; threads = replicate n outside }

pub data Comes (n : ℕ) : Lock → Type 0 where
  come_start : Comes n (construct n)
  come_step : {k l : Lock} → Comes n k → Spins k l → Comes n l
