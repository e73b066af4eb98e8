-- ===== src/TcpServer/Replies.antt =====
-- What the byte strings of TCPServer/CMByteArray.cpp hold after `append` and `prepend`.
use learn_space.Base.{
  ℕ, ◌+◌, ◌-◌, ◌*◌, ◌/◌, ◌≤◌, ◌<◌, ◌≡◌, refl, sym, ap, ◌∙◌, true, false, List, [], ◌++◌,
  append_assoc, length, length-append, length-take, length-replicate, take, drop, take-append,
  take-append-drop, drop-append, drop-drop, replicate, ok, faults, ltb, le→ltb, Bool-cases,
  ltb_false→le, inl, inr, arith,
}
use learn_space.TcpServer.Message.{
  Message, contents, room, put, overlap, insert_element, append, prepend,
}

-- The message with the bytes that it holds.
pub record Holds (m : Message) (xs : List ℕ) : Type 0 where
  pub rest : List ℕ
  pub whole : m.buffer ≡ xs ++ rest
  pub sized : m.size ≡ length xs

Holds-contents : (m : Message) (xs : List ℕ) → Holds m xs → contents m ≡ xs
Holds-contents m xs h = ap (take m.size) h.whole ∙ take-append m.size xs h.rest h.sized

-- There is room for the new bytes.
pub record Room (m : Message) (xs : List ℕ) (len : ℕ) : Type 0 where
  pub behind : List ℕ
  pub same : room m len ≡ xs ++ behind
  pub enough : len ≤ length behind

has-Room : (m : Message) (xs : List ℕ) (len : ℕ) → Holds m xs → Room m xs len
has-Room m xs len h = elim (Bool-cases (ltb (length m.buffer) (m.size + len))) [
  | inl grows ↦
      let zeros = replicate ((length m.buffer + len) * 3 / 2 - m.size) 0 in
      record {
        behind = zeros;
        same = rw grows (ap (λ ys. ys ++ zeros) (Holds-contents m xs h));
        enough = omega (
          arith,
          h.sized,
          ap length h.whole,
          length-append xs h.rest,
          length-replicate {A = ℕ} ((length m.buffer + len) * 3 / 2 - m.size) 0,
        );
      }
  | inr fits ↦ record {
    behind = h.rest;
    same = rw fits h.whole;
    enough = omega (
      arith,
      h.sized,
      ap length h.whole,
      length-append xs h.rest,
      ltb_false→le (length m.buffer) (m.size + len) fits,
    );
  }
]

no_overlap : (a b : ℕ) → overlap a b 0 ≡ false
no_overlap a b = ground arith

put_nothing : (buffer : List ℕ) (pos : ℕ) → put buffer pos [] ≡ buffer
put_nothing buffer pos =
    let z : pos + 0 ≡ pos = omega arith in
    ap (λ k. take pos buffer ++ drop k buffer) z ∙ take-append-drop pos buffer

-- Bytes put behind others.
put_behind :
    (xs behind bytes : List ℕ) (pos : ℕ)
    → pos ≡ length xs
    → put (xs ++ behind) pos bytes ≡ (xs ++ bytes) ++ drop (length bytes) behind
put_behind xs behind bytes pos h =
    ap (λ ys. ys ++ (bytes ++ drop (pos + length bytes) (xs ++ behind)))
      (take-append pos xs behind h)
    ∙ ap (λ ys. xs ++ (bytes ++ ys))
        (sym (drop-drop (length bytes) pos (xs ++ behind))
          ∙ ap (drop (length bytes)) (drop-append pos xs behind h))
    ∙ sym (append_assoc xs bytes (drop (length bytes) behind))

-- The buffer that `insertElement` leaves.
abbrev spliced : Message → ℕ → List ℕ → List ℕ
spliced m pos bytes =
    let buffer = room m (length bytes) in
    put (put buffer (length bytes) (take (m.size - pos) (drop pos buffer))) pos bytes

inserted :
    (m : Message) (pos : ℕ) (bytes : List ℕ)
    → pos ≤ m.size
    → overlap pos (length bytes) (m.size - pos) ≡ false
    → insert_element m pos bytes
      ≡ ok (record { buffer = spliced m pos bytes; size = m.size + length bytes })
unfolding insert_element
inserted m pos bytes h o = rw (le→ltb m.size pos h, o) refl

pub append-Holds :
    (m : Message) (xs bytes : List ℕ)
    → Holds m xs
    → (m1 : Message) × (append m bytes ≡ ok m1) × Holds m1 (xs ++ bytes)
unfolding append
append-Holds m xs bytes h =
    let r = has-Room m xs (length bytes) h in
    let R = room m (length bytes) in
    let z : m.size - m.size ≡ 0 = omega arith in
    let clear : overlap m.size (length bytes) (m.size - m.size) ≡ false =
      ap (overlap m.size (length bytes)) z ∙ no_overlap m.size (length bytes) in
    (
      record {
        buffer = (xs ++ bytes) ++ drop (length bytes) r.behind;
        size = m.size + length bytes;
      },
      inserted m m.size bytes (omega arith) clear
          ∙ ap (λ b. ok (record { buffer = b; size = m.size + length bytes }))
              (ap (λ k. put (put R (length bytes) (take k (drop m.size R))) m.size bytes) z
                ∙ ap (λ b. put b m.size bytes) (put_nothing R (length bytes) ∙ r.same)
                ∙ put_behind xs r.behind bytes m.size h.sized),
      record {
        rest = drop (length bytes) r.behind;
        whole = refl;
        sized = omega (arith, h.sized, length-append xs bytes);
      },
    )

near : (len n : ℕ) → n ≤ len → overlap 0 len n ≡ false
near len n h = ground arith

far : (len n : ℕ) → 0 < len → len < n → overlap 0 len n ≡ true
far len n h h' = ground arith

-- Bytes put in front of those that were moved out of the way.
put_front :
    (R xs bytes : List ℕ)
    → length bytes ≤ length R
    → put (put R (length bytes) xs) 0 bytes ≡ (bytes ++ xs) ++ drop (length bytes + length xs) R
put_front R xs bytes h =
    let len = length bytes in
    let z : 0 + len ≡ len = omega arith in
    let rest = xs ++ drop (len + length xs) R in
    ap (λ k. bytes ++ drop k (take len R ++ rest)) z
    ∙ ap (λ ys. bytes ++ ys)
        (drop-append len (take len R) rest (omega (arith, h, length-take len R)))
    ∙ sym (append_assoc bytes xs (drop (len + length xs) R))

prepended :
    (m : Message) (xs bytes : List ℕ)
    → Holds m xs
    → length xs ≤ length bytes
    → (m1 : Message) × (prepend m bytes ≡ ok m1) × Holds m1 (bytes ++ xs)
unfolding prepend
prepended m xs bytes h short =
    let r = has-Room m xs (length bytes) h in
    let R = room m (length bytes) in
    let z : m.size - 0 ≡ m.size = omega arith in
    let held =
      ap (λ k. take k R) z ∙ ap (take m.size) r.same ∙ take-append m.size xs r.behind h.sized in
    let rest = drop (length bytes + length xs) R in
    let wide : length bytes ≤ length R =
      omega (arith, ap length r.same, length-append xs r.behind, r.enough) in
    (
      record { buffer = (bytes ++ xs) ++ rest; size = m.size + length bytes },
      inserted m 0 bytes (omega arith)
            (near (length bytes) (m.size - 0) (omega (arith, h.sized, z)))
          ∙ ap (λ b. ok (record { buffer = b; size = m.size + length bytes }))
              (ap (λ ys. put (put R (length bytes) ys) 0 bytes) held ∙ put_front R xs bytes wide),
      record { rest = rest; whole = refl; sized = omega (arith, h.sized, length-append bytes xs) },
    )

-- `prepend` of a text that is not empty puts it in front of a message that is not longer than
-- it, and the buffer grows when it has to; on a longer message its `memcpy` is undefined.
pub prepend-Holds :
    (m : Message) (xs bytes : List ℕ)
    → Holds m xs
    → 0 < length bytes
    → (length xs ≤ length bytes
        → (m1 : Message) × (prepend m bytes ≡ ok m1) × Holds m1 (bytes ++ xs))
      × (length bytes < length xs → prepend m bytes ≡ faults)
unfolding prepend insert_element
prepend-Holds m xs bytes h some_byte = (
  prepended m xs bytes h,
  λ long.
      rw (le→ltb m.size 0 (omega arith))
        (rw (far (length bytes) (m.size - 0) some_byte (omega (arith, h.sized, long))) refl),
)
