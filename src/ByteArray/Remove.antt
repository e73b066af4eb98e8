-- ===== src/ByteArray/Remove.antt =====
-- `remove` of CMByteArray.cpp: of a tail, and of bytes with more behind them.
use learn_space.Base.{
  ℕ, ◌+◌, ◌-◌, ◌≤◌, ◌<◌, ◌≡◌, refl, ap, ◌∙◌, true, some, List, ◌++◌, arith, length, drop, replicate,
  if◌then◌else◌, ltb, length-append, length-replicate, length-drop, append_assoc, drop-append,
  take-append, le→leb, lt→leb, le→ltb, Bool-cases, inl, inr, ok, faults,
}
use learn_space.ByteArray.{
  Store, ByteArray, contents, unique, set_buffer, erase, remove_element, remove,
}
use learn_space.ByteArray.Holds.{Holds, Spares, Spares-trans, reset_buffer-Holds}
use learn_space.ByteArray.Append.{written-Holds, written-Spares}

-- `remove` in the middle copies the bytes behind with `memcpy`: if they are more than the removed
-- ones the ranges overlap, which is undefined.
pub remove_overlap :
    {s : Store} {b : ByteArray} {xs : List ℕ} (pos len : ℕ)
    → Holds s b xs
    → unique s b.pointer ≡ true
    → pos + len + len < length xs
    → remove s b pos len ≡ faults
unfolding remove remove_element
remove_overlap {s} {b} {xs} pos len h alone more =
    rw
      (
        le→ltb b.size pos (omega (arith, h.sized)),
        alone,
        le→ltb (b.size - pos) len (omega (arith, h.sized)),
        h.pointed,
        contents,
        h.stored,
        lt→leb ((b.size - pos) - len) len (omega (arith, h.sized)),
      )
      refl

erase_tail :
    {s : Store} {b : ByteArray} (xs ys : List ℕ) (pos len : ℕ) (h : Holds s b (xs ++ ys))
    → pos ≡ length xs
    → length ys ≤ len
    → unique s b.pointer ≡ true
    → (s' : Store) × (b' : ByteArray) × (erase s b pos len ≡ ok (s', b'))
      × Holds s' b' xs
      × Spares s b s'
erase_tail {s} {b} xs ys pos len h at_end all alone =
    let tl = ys ++ h.rest in
    let buf = xs ++ tl in
    let full : length buf ≡ b.capacity =
      omega (arith, length-append xs tl, length-append ys h.rest, length-append xs ys, h.room) in
    let size : b.size ≡ length xs + length ys = omega (arith, h.sized, length-append xs ys) in
    let kept : s.buffer h.at ≡ some buf = h.stored ∙ ap some (append_assoc xs ys h.rest) in
    let cut : (if ltb (b.size - pos) len then b.size - pos else len) ≡ length ys =
      ground (arith, size) in
    let none_behind : (b.size - pos) - length ys ≡ 0 = omega (arith, size) in
    let n = b.size - length ys in
    let here : n ≡ length xs = omega (arith, size) in
    let zeros = replicate (b.capacity - n) 0 in
    let many : length zeros ≡ b.capacity - n = length-replicate {A = ℕ} (b.capacity - n) 0 in
    let left = zeros ++ drop (n + length zeros) buf in
    (
      set_buffer s (some h.at) (xs ++ left),
      record b { size = n },
      rw
          (
            cut,
            none_behind,
            h.pointed,
            contents,
            kept,
            le→leb 0 (length ys) (omega arith),
            le→leb (pos + length ys + 0) (length buf)
                (omega (arith, full, size, h.room, length-append xs ys)),
            le→leb (pos + 0) (length buf) (omega (arith, full, size, h.room, length-append xs ys)),
            drop-append (pos + 0) xs tl (omega arith),
            take-append pos xs tl at_end,
            le→leb (n + length zeros) (length buf)
                (omega (arith, full, many, here, h.room, length-append xs ys)),
            take-append n xs tl here,
          )
          refl,
      written-Holds n xs left h here (
          omega (
            arith,
            full,
            many,
            here,
            h.room,
            length-append xs ys,
            length-append zeros (drop (n + length zeros) buf),
            length-drop (n + length zeros) buf,
          )),
      written-Spares (xs ++ left) h alone,
    )

-- `remove` of everything from a position on, by a length that reaches the end or goes beyond it:
-- the array holds what is before, and every other array holds what it held.
pub remove_tail :
    {s : Store} {b : ByteArray} (xs ys : List ℕ) (pos len : ℕ)
    → Holds s b (xs ++ ys)
    → pos ≡ length xs
    → length ys ≤ len
    → (s' : Store) × (b' : ByteArray) × (remove s b pos len ≡ ok (s', b'))
      × Holds s' b' xs
      × Spares s b s'
unfolding remove remove_element
remove_tail {s} {b} xs ys pos len h at_end all =
    let inside : pos ≤ b.size = omega (arith, h.sized, length-append xs ys) in
    elim (Bool-cases (unique s b.pointer)) [
      | inl alone ↦
          let (s', b', ran, holds, spares) = erase_tail xs ys pos len h at_end all alone in
          (s', b', rw (le→ltb b.size pos inside, alone) ran, holds, spares)
      | inr shared ↦
          let (s1, b1, reset, h1, cap, alone, here, spares1) =
            reset_buffer-Holds b.capacity h (omega (arith, h.room)) h.roomy in
          let (s', b', ran, holds, spares) = erase_tail xs ys pos len h1 at_end all alone in
          (
            s',
            b',
            rw (le→ltb b.size pos inside, shared, reset) ran,
            holds,
            Spares-trans b b1 spares1 here spares,
          )
    ]
