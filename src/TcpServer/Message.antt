-- ===== src/TcpServer/Message.antt =====
-- `CMByteArray` as TCPServer/CMByteArray.cpp has it, for a text whose buffer no other shares; the
-- capacity is the length of the buffer.
use learn_space.Base.{
  ℕ, ◌+◌, ◌-◌, ◌*◌, ◌/◌, Bool, List, ◌++◌, length, take, drop, replicate, Outcome, ok, faults,
  throws, if◌then◌else◌, ltb,
}

pub record Message : Type 0 where
  pub buffer : List ℕ
  pub size : ℕ

abbrev pub contents : Message → List ℕ
contents m = take m.size m.buffer

-- `CMByteArray()`
abbrev pub empty : Message
empty = record { buffer = replicate 1024 0; size = 0 }

-- The buffer after `resetBuffer` to the capacity that `len` more bytes need.
abbrev pub room : Message → ℕ → List ℕ
room m len =
    let capacity = length m.buffer in
    if ltb capacity (m.size + len)
    then contents m ++ replicate ((capacity + len) * 3 / 2 - m.size) 0
    else m.buffer

-- `memcpy` of the bytes to a place in the buffer.
abbrev pub put : List ℕ → ℕ → List ℕ → List ℕ
put buffer pos bytes = take pos buffer ++ (bytes ++ drop (pos + length bytes) buffer)

-- Whether the `n` bytes from `a` on and from `b` on have bytes in common.
abbrev pub overlap : ℕ → ℕ → ℕ → Bool
overlap a b n = if ltb a b then ltb (b - a) n else ltb (a - b) n

-- The bytes from `pos` on are copied to `dataLen`, by a `memcpy` that needs the ranges to be apart.
unfoldable pub insert_element : Message → ℕ → List ℕ → Outcome Message
insert_element m pos bytes =
    let len = length bytes in
    let n = m.size - pos in
    let buffer = room m len in
    if ltb m.size pos
    then throws
    else if overlap pos len n
    then faults
    else ok (record {
      buffer = put (put buffer len (take n (drop pos buffer))) pos bytes;
      size = m.size + len;
    })

unfoldable pub append : Message → List ℕ → Outcome Message
append m bytes = insert_element m m.size bytes

unfoldable pub prepend : Message → List ℕ → Outcome Message
prepend m bytes = insert_element m 0 bytes
