-- ===== src/ByteArray/Append.antt =====
-- `append` of CMByteArray.cpp, to a buffer with and without room, alone and shared.
use learn_space.Base.{
  ℕ, ◌+◌, ◌-◌, ◌≤◌, ◌<◌, ◌≡◌, ◌≢◌, refl, sym, ap, ◌∙◌, true, false, some, List, ◌++◌, arith, length,
  drop, length-append, length-drop, drop-drop, append_assoc, drop-append, take-append, eq→==, ne→==,
  le→leb, lt→leb, le→ltb, Bool-cases, inl, inr, ◌⊎◌, ok, faults,
}
use learn_space.ByteArray.{
  Store, ByteArray, contents, unique, set_buffer, splice, write_spliced, grown, insert_element,
  append,
}
use learn_space.ByteArray.Holds.{Holds, Spares, Spares-trans, reset_buffer-Holds}

-- At the end, with room.
splice_end :
    (xs rest bytes : List ℕ) (n m : ℕ)
    → n ≡ length xs
    → m ≡ length xs
    → length bytes ≤ length rest
    → splice (xs ++ rest) n m bytes ≡ ok (xs ++ (bytes ++ drop (length bytes) rest))
splice_end xs rest bytes n m h k room =
    let buf = xs ++ rest in
    let size = length-append xs rest in
    let none_behind : n - m ≡ 0 = omega arith in
    rw
      (
        none_behind,
        le→leb (m + 0) (length buf) (omega (arith, size)),
        drop-append (n + 0) xs rest (omega arith),
        take-append n xs rest h,
        le→leb (n + 0) (length buf) (omega (arith, size)),
        le→leb (m + length bytes) (length buf) (omega (arith, size)),
        sym (drop-drop (length bytes) m buf) ∙ ap (drop (length bytes)) (drop-append m xs rest k),
      )
      (ap (λ l. ok (l ++ (bytes ++ drop (length bytes) rest))) (take-append m xs rest k))

-- An array alone with its buffer, written to: the others keep what they hold.
pub written-Spares :
    {s : Store} {b : ByteArray} {xs : List ℕ} (buf : List ℕ) (h : Holds s b xs)
    → unique s b.pointer ≡ true
    → Spares s b (set_buffer s (some h.at) buf)
written-Spares {s} {b} buf h alone c ys k apart =
    let apart_at : h.at ≢ k.at =
      (λ e. ground (arith, alone, h.pointed, apart h.at h.pointed (k.pointed ∙ ap some (sym e)))) in
    record {
      at = k.at;
      rest = k.rest;
      pointed = k.pointed;
      stored = rw (ne→== h.at k.at apart_at) k.stored;
      sized = k.sized;
      room = k.room;
      roomy = k.roomy;
      used = k.used;
      below = k.below;
    }

-- The array itself, after a write of a buffer as long as its capacity.
pub written-Holds :
    {s : Store} {b : ByteArray} {xs : List ℕ} (n : ℕ) (zs left : List ℕ) (h : Holds s b xs)
    → n ≡ length zs
    → b.capacity ≡ length zs + length left
    → Holds (set_buffer s (some h.at) (zs ++ left)) (record b { size = n }) zs
written-Holds {s} n zs left h size room = record {
  at = h.at;
  rest = left;
  pointed = h.pointed;
  stored = rw (eq→== h.at h.at refl) refl;
  sized = size;
  room = room;
  roomy = h.roomy;
  used = h.used;
  below = h.below;
}

append_alone :
    {s : Store} {b : ByteArray} {xs : List ℕ} (pos : ℕ) (bytes : List ℕ) (h : Holds s b xs)
    → pos ≡ length xs
    → unique s b.pointer ≡ true
    → length xs + length bytes ≤ b.capacity
    → (s' : Store) × (b' : ByteArray) × (write_spliced s b pos bytes ≡ ok (s', b'))
      × Holds s' b' (xs ++ bytes)
      × Spares s b s'
append_alone {s} {b} {xs} pos bytes h k alone fits =
    let left = drop (length bytes) h.rest in
    let whole : (xs ++ bytes) ++ left ≡ xs ++ (bytes ++ left) = append_assoc xs bytes left in
    let many = length-append xs bytes in
    (
      set_buffer s (some h.at) ((xs ++ bytes) ++ left),
      record b { size = b.size + length bytes },
      rw
          (
            h.pointed,
            contents,
            h.stored,
            splice_end xs h.rest bytes b.size pos h.sized k (omega (arith, h.room)),
            whole,
          )
          refl,
      written-Holds (b.size + length bytes) (xs ++ bytes) left h (omega (arith, h.sized, many))
          (omega (arith, h.room, many, length-drop (length bytes) h.rest)),
      written-Spares ((xs ++ bytes) ++ left) h alone,
    )

-- `append` puts the bytes at the end of what the array holds and leaves every other array, if the
-- array shares its buffer, or the capacity has room for the bytes.
pub append-Spares :
    {s : Store} {b : ByteArray} {xs : List ℕ} (bytes : List ℕ)
    → Holds s b xs
    → (unique s b.pointer ≡ false) ⊎ (length xs + length bytes ≤ b.capacity)
    → (s' : Store) × (b' : ByteArray) × (append s b bytes ≡ ok (s', b'))
      × Holds s' b' (xs ++ bytes)
      × Spares s b s'
unfolding append insert_element
append-Spares {s} {b} {xs} bytes h room = elim (Bool-cases (unique s b.pointer)) [
  | inl alone ↦
      let fits : length xs + length bytes ≤ b.capacity = elim room [
        | inl shared ↦ absurd (cc (shared, alone))
        | inr k ↦ k
      ] in
      let still : grown b (length bytes) ≡ b.capacity =
        rw (le→ltb b.capacity (b.size + length bytes) (omega (arith, h.sized, fits))) refl in
      let (s', b', wrote, holds, spares) = append_alone b.size bytes h h.sized alone fits in
      (s', b', rw (le→ltb b.size b.size (omega arith), still, alone) wrote, holds, spares)
  | inr shared ↦
      let capacity = grown b (length bytes) in
      let more : 1 ≤ capacity = ground (arith, h.roomy) in
      let grows : length xs + length bytes ≤ capacity = ground (arith, h.sized, h.room) in
      let (s1, b1, reset, h1, cap, alone, here, spares1) =
        reset_buffer-Holds capacity h (omega (arith, grows)) more in
      let (s', b', wrote, holds, spares) =
        append_alone b.size bytes h1 h.sized alone (omega (arith, grows, cap)) in
      (
        s',
        b',
        rw (le→ltb b.size b.size (omega arith), shared, reset) wrote,
        holds,
        Spares-trans b b1 spares1 here spares,
      )
]

-- `append` to an array that is alone with its buffer does not make the buffer longer: bytes for
-- which the capacity has no room are written beyond its end.
pub append_overflow :
    {s : Store} {b : ByteArray} {xs : List ℕ} (bytes : List ℕ)
    → Holds s b xs
    → unique s b.pointer ≡ true
    → b.capacity < length xs + length bytes
    → append s b bytes ≡ faults
unfolding append insert_element
append_overflow {s} {b} {xs} bytes h alone over =
    let buf = xs ++ h.rest in
    let size = length-append xs h.rest in
    let n = b.size in
    let none_behind : n - n ≡ 0 = omega arith in
    rw
      (
        le→ltb n n (omega arith),
        alone,
        h.pointed,
        contents,
        h.stored,
        none_behind,
        le→leb (n + 0) (length buf) (omega (arith, size, h.sized)),
        drop-append (n + 0) xs h.rest (omega (arith, h.sized)),
        take-append n xs h.rest h.sized,
        le→leb (n + 0) (length buf) (omega (arith, size, h.sized)),
        lt→leb (n + length bytes) (length buf) (omega (arith, size, h.sized, h.room)),
      )
      refl
