-- ===== src/ByteArray/Share.antt =====
-- Copies of arrays (CMByteArray.cpp), and the constructor of given bytes.
use mathlib.Core.Path.{subst}
use mathlib.Core.Option.{some-injective}
use learn_space.Base.{
  ℕ, ◌+◌, ◌≤◌, ◌≡◌, refl, sym, ap, ◌∙◌, false, some, List, ◌++◌, arith, length, eq→==, ne→==, inl,
  ok, faults,
}
use learn_space.ByteArray.{
  Store, ByteArray, acquire, unique, reset_buffer, bytes_of, copy, append, construct_len,
}
use learn_space.ByteArray.Holds.{Holds}
use learn_space.ByteArray.Append.{append-Spares}

-- One more array shares the buffer at `p`.
acquired-Holds :
    {s : Store} {c : ByteArray} {ys : List ℕ} (p : ℕ)
    → Holds s c ys
    → Holds (acquire s (some p)) c ys
unfolding acquire
acquired-Holds {s} p h = record {
  at = h.at;
  rest = h.rest;
  pointed = h.pointed;
  stored = h.stored;
  sized = h.sized;
  room = h.room;
  roomy = h.roomy;
  used = ground (arith, h.used);
  below = h.below;
}

acquired_count : (s : Store) (p : ℕ) → (acquire s (some p)).uses p ≡ s.uses p + 1
unfolding acquire
acquired_count s p = rw (eq→== p p refl) refl

-- `append` to a copy of an array, of any bytes: the copy holds them behind what the array holds,
-- and the array holds what it held.
pub append-copy :
    {s : Store} {b : ByteArray} {xs : List ℕ} (bytes : List ℕ)
    → Holds s b xs
    → (s' : Store) × (b' : ByteArray) × (append (copy s b).0 (copy s b).1 bytes ≡ ok (s', b'))
      × Holds s' b' (xs ++ bytes)
      × Holds s' b xs
unfolding copy
append-copy {s} {b} {xs} bytes h =
    let p = h.at in
    let s1 = acquire s b.pointer in
    let same : acquire s (some p) ≡ s1 = ap (acquire s) (sym h.pointed) in
    let h1 : Holds s1 b xs = subst (λ t. Holds t b xs) same (acquired-Holds p h) in
    let two : s1.uses p ≡ s.uses p + 1 = ap (λ t. t.uses p) (sym same) ∙ acquired_count s p in
    let shared : unique s1 b.pointer ≡ false =
      ap (unique s1) h.pointed ∙ ne→== (s1.uses p) 1 (λ e. omega (arith, h.used, two)) in
    let (s', b', run, holds, spares) = append-Spares bytes h1 (inl shared) in
    (
      s',
      b',
      run,
      holds,
      spares b xs h1 (λ q e f.
          let at_q = some-injective _ _ (sym h.pointed ∙ e) in
          subst (λ r. 2 ≤ s1.uses r) at_q (omega (arith, two, h.used))),
    )

-- `CMByteArray(const char* str, size_t len)` sets the size before there is a buffer: with any
-- byte at all it copies from a null pointer.
pub construct_len_faults :
    (s : Store) (bytes : List ℕ) → 1 ≤ length bytes → construct_len s bytes ≡ faults
unfolding construct_len reset_buffer bytes_of
construct_len_faults s bytes some_bytes =
    rw (ne→== (length bytes) 0 (λ e. omega (arith, some_bytes))) refl
