-- ===== src/Spin/Exclusion.antt =====
-- What `SpinLock` (SpinLock.hpp) promises: one thread at a time, and a lock that is free is taken.
use learn_space.Base.{
  ℕ, zero, suc, ◌+◌, ◌≤◌, ◌<◌, ◌≡◌, refl, ap, Bool, true, false, ◌∷◌, replicate, All, All-insert,
  All-without, All-right, arith, total, total_middle, leb, Bool-cases, inl, inr,
}
use learn_space.Spin.{
  max_count, Spinner, outside, spinning, yielding, inside, spin, Lock, Spins, spin_step, construct,
  Comes, come_start, come_step,
}

abbrev pub held : Bool → ℕ
held true = 1
held false = 0

-- 1 for a thread that has the lock
abbrev pub has : Spinner → ℕ
has outside = 0
has (spinning count) = 0
has yielding = 0
has inside = 1

spin-has :
    (state : Bool) (w : Spinner)
    → has w ≤ held state
    → held (spin state w).0 + has w ≡ held state + has (spin state w).1
unfolding spin
spin-has true outside h = omega arith
spin-has true (spinning count) h = ground arith
spin-has true yielding h = omega arith
spin-has true inside h = omega arith
spin-has false outside h = omega arith
spin-has false (spinning count) h = omega arith
spin-has false yielding h = omega arith
spin-has false inside h = absurd (omega arith)

Spins-held :
    {k l : Lock}
    → Spins k l
    → total has k.threads ≡ held k.state
    → total has l.threads ≡ held l.state
Spins-held (spin_step state w xs ys) h =
    let before = total_middle has xs ys w in
    let after = total_middle has xs ys (spin state w).1 in
    let local = spin-has state w (omega (arith, h, before)) in
    omega (arith, h, before, after, local)

total_outside : (n : ℕ) → total has (replicate n outside) ≡ 0
total_outside zero = refl
total_outside (suc n) = omega (arith, total_outside n)

-- The flag is set exactly when a thread has the lock, and no two threads have it at a time.
pub one_inside : {n : ℕ} {l : Lock} → Comes n l → total has l.threads ≡ held l.state
unfolding construct
one_inside {n} come_start = total_outside n
one_inside (come_step r step) = Spins-held step (one_inside r)

-- A thread yields after at most `max_count` rounds in a row.
abbrev pub Counts : Spinner → Type 0
Counts outside = Unit
Counts (spinning count) = count < max_count
Counts yielding = Unit
Counts inside = Unit

spin-Counts : (state : Bool) (w : Spinner) → Counts w → Counts (spin state w).1
unfolding spin
spin-Counts state outside h = omega arith
spin-Counts true (spinning count) h = elim (Bool-cases (leb max_count (count + 1))) [
  | inl full ↦ rw full tt
  | inr more ↦ rw more (ground arith)
]
spin-Counts false (spinning count) h = tt
spin-Counts state yielding h = omega arith
spin-Counts state inside h = tt

Spins-Counts : {k l : Lock} → Spins k l → All Counts k.threads → All Counts l.threads
Spins-Counts (spin_step state w xs ys) h =
    All-insert Counts xs ys (spin state w).1
      (spin-Counts state w (All-right Counts xs (w ∷ ys) h).0) (All-without Counts xs ys w h)

Counts-outside : (n : ℕ) → All Counts (replicate n outside)
Counts-outside zero = tt
Counts-outside (suc n) = (tt, Counts-outside n)

-- A thread that waits has made fewer than 30 rounds since it last yielded.
pub Counts-bounded : {n : ℕ} {l : Lock} → Comes n l → All Counts l.threads
unfolding construct
Counts-bounded {n} come_start = Counts-outside n
Counts-bounded (come_step r step) = Spins-Counts step (Counts-bounded r)

-- While no thread has the lock, the next round of any thread that waits takes it.
pub free_taken :
    {n : ℕ} {l : Lock} (count : ℕ)
    → Comes n l
    → total has l.threads ≡ 0
    → spin l.state (spinning count) ≡ (true, inside)
unfolding spin
free_taken {n} {l} count r none = elim (Bool-cases l.state) [
  | inl up ↦ absurd (omega (arith, none, one_inside r, ap held up))
  | inr down ↦ rw down refl
]
