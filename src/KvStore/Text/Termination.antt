-- ===== src/KvStore/Text/Termination.antt =====
-- `split` by a separator that has a byte comes to an end.
use learn_space.Base.{
  ℕ, ◌%◌, ◌^◌, Bool, true, false, Outcome, faults, leb, if◌then◌else◌, zero, suc, ◌+◌, ◌-◌, ◌<◌,
  ◌≤◌, ◌≢◌, Option, none, some, List, [], ◌∷◌, length, get_elem?, get_elem?-lt, ok, diverges,
  Settles, Settles->>=, Settles-halts, Settles-weaken, Settles-if_found, ◌==◌, Bool-cases, inl, inr,
  arith, Option-cases,
}
use learn_space.KvStore.Text.{
  Text, contents, byte_at, byte_at_int, int_limit, same_loop, find_loop, find, split_loop, split,
}

abbrev pub Any {ℓ} : {A : Type ℓ} → A → Type 0
Any a = Unit

-- A byte that is read stands in the buffer.
pub byte_at-Settles : (t : Text) (i : ℕ) → Settles (λ _. i < length t.buffer) (byte_at t i)
byte_at-Settles t i = elim (Option-cases (get_elem? t.buffer i)) [
  | inl out ↦ rw out tt
  | inr (b, here) ↦ rw here (get_elem?-lt t.buffer i b here)
]

-- A branch settles if both sides do.
pub Settles-if {ℓ} :
    {A : Type ℓ} (P : A → Type 0) (b : Bool) (m n : Outcome A)
    → Settles P m
    → Settles P n
    → Settles P (if b then m else n)
Settles-if P true m n h k = h
Settles-if P false m n h k = k

byte_at_int-Settles : (t : Text) (pos : ℕ) → Settles Any (byte_at_int t pos)
byte_at_int-Settles t pos = Settles-if Any (leb int_limit pos) faults _ tt (
    Settles-weaken (λ _. pos < length t.buffer) Any (byte_at t pos) (λ a _. tt)
      (byte_at-Settles t pos))

same_loop-Settles : (t : Text) (pos : ℕ) (v : List ℕ) → Settles Any (same_loop t pos v)
unfolding same_loop
same_loop-Settles t pos [] = tt
same_loop-Settles t pos (b ∷ bs) =
    Settles->>= Any Any (byte_at_int t pos) _ (byte_at_int-Settles t pos) λ a _.
      Settles-if Any (a == b) _ _
        (Settles-if Any (leb int_limit (pos + 1)) faults _ tt (same_loop-Settles t (pos + 1) bs)) tt

-- What is found is in the range searched.
abbrev InRange : ℕ → ℕ → Option ℕ → Type 0
InRange i n none = Unit
InRange i n (some j) = (i ≤ j) × (j < i + n)

widen : (i n : ℕ) (o : Option ℕ) → InRange (i + 1) n o → InRange i (suc n) o
widen i n none h = tt
widen i n (some j) h = (omega arith, omega arith)

find_loop-Settles :
    (t : Text) (v : List ℕ) (rounds i : ℕ) → Settles (InRange i rounds) (find_loop t v rounds i)
unfolding find_loop
find_loop-Settles t v zero i = tt
find_loop-Settles t v (suc rounds) i =
    Settles->>= Any (InRange i (suc rounds)) (same_loop t (i % 2 ^ 32) v) _
      (same_loop-Settles t (i % 2 ^ 32) v)
      λ a _. elim (Bool-cases a) [
        | inl same ↦ rw same (omega arith, omega arith)
        | inr other ↦ rw other (
            Settles-weaken (InRange (i + 1) rounds) (InRange i (suc rounds))
              (find_loop t v rounds (i + 1)) (widen i rounds)
              (find_loop-Settles t v rounds (i + 1)))
      ]

split_loop-Settles :
    (t value : Text) (fuel pos : ℕ)
    → 0 < value.size
    → 0 < fuel
    → t.size < fuel + pos
    → Settles Any (split_loop t value fuel pos)
unfolding split_loop find
split_loop-Settles t value zero pos some_byte first enough = absurd (omega arith)
split_loop-Settles t value (suc fuel) pos some_byte first enough =
    Settles->>= (InRange pos (t.size - pos)) Any (find t value pos) _
      (find_loop-Settles t (contents value) (t.size - pos) pos)
      λ o range. Settles-if_found (InRange pos (t.size - pos)) Any o (ok []) _ range tt λ i found.
        Settles->>= Any Any (split_loop t value fuel (i + value.size)) _
          (split_loop-Settles t value fuel (i + value.size) some_byte (omega arith) (omega arith))
          λ pieces _. tt

pub split-Settles : (t value : Text) → 0 < value.size → Settles Any (split t value)
unfolding split
split-Settles t value some_byte =
    split_loop-Settles t value (suc t.size) 0 some_byte (omega arith) (omega arith)

-- `split` by a separator that has a byte comes to an end, whatever the two texts are.
pub split_ends : (t value : Text) → 0 < value.size → split t value ≢ diverges
split_ends t value some_byte = Settles-halts Any (split t value) (split-Settles t value some_byte)
