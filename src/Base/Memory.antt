-- ===== src/Base/Memory.antt =====
-- Arrays from `new T[n]`: a cell that nothing was written to yet holds `none`.
use Prim.Native.Nat.{ℕ, ◌+◌}
use mathlib.Core.Bool.{◌&&◌}
use mathlib.Core.List.{List, ◌++◌}
use mathlib.Core.Option.{Option, none, some}
use learn_space.Base.Tests.{ltb, leb, if◌then◌else◌}
use learn_space.Base.Lists.{length, get_elem?, set, take, drop}
use learn_space.Base.Runs.{Outcome, ok, faults}

abbrev pub Cells {ℓ} : Type ℓ → Type ℓ
Cells A = List (Option A)

module _ {ℓ} {A : Type ℓ} where
  -- The value of a cell.
  abbrev pub value : Option (Option A) → Outcome A
  value (some (some x)) = ok x
  value (some none) = faults
  value none = faults

  -- `p[i]` as a value.
  abbrev pub read : Cells A → ℕ → Outcome A
  read p i = value (get_elem? p i)

  -- `p[i] = x`
  abbrev pub write : Cells A → ℕ → A → Outcome (Cells A)
  write p i x = if ltb i (length p) then ok (set p i (some x)) else faults

  -- `memcpy(to, from, n)`, in elements.
  abbrev pub memcpy : Cells A → Cells A → ℕ → Outcome (Cells A)
  memcpy to from n =
      if leb n (length from) && leb n (length to) then ok (take n from ++ drop n to) else faults

  -- `memmove(p + to, p + from, n)`, in elements.
  abbrev pub memmove : Cells A → ℕ → ℕ → ℕ → Outcome (Cells A)
  memmove p to from n =
      if leb (to + n) (length p) && leb (from + n) (length p)
      then ok (take to p ++ (take n (drop from p) ++ drop (to + n) p))
      else faults
