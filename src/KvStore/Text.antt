-- ===== src/KvStore/Text.antt =====
-- `find`, `split` and `chop` of kv_store/CMByteArray.cpp. A text is what `_data` points to, all
-- `_capacity` bytes of it, and `_size`. `find` gives -1, here `none`, where there is nothing.
pub mod Find
pub mod Split
pub mod Termination
use learn_space.Base.{
  ℕ, zero, suc, ◌+◌, ◌-◌, Bool, true, false, Option, none, some, List, [], ◌∷◌, length, get_elem?,
  take, drop, Outcome, ok, faults, diverges, ◌>>=◌, if◌then◌else◌, ◌==◌, ltb, throws, if_found, leb,
  replicate, ◌++◌, ◌*◌, ◌/◌, ◌%◌, ◌^◌,
}

pub record Text : Type 0 where
  pub buffer : List ℕ
  pub size : ℕ

abbrev pub contents : Text → List ℕ
contents t = take t.size t.buffer

-- A read outside the buffer is undefined.
abbrev pub or_fault : Option ℕ → Outcome ℕ
or_fault none = faults
or_fault (some b) = ok b

abbrev pub byte_at : Text → ℕ → Outcome ℕ
byte_at t i = or_fault (get_elem? t.buffer i)

abbrev pub int_limit : ℕ
int_limit = 2 ^ 31

-- `_data.get()[pos]`, with `pos` the 32 bits of an `int`, which is negative from 2 ^ 31 on.
abbrev pub byte_at_int : Text → ℕ → Outcome ℕ
byte_at_int t pos = if leb int_limit pos then faults else byte_at t pos

-- The loop over `value`, from the byte at `pos`; `pos++` must not overflow.
unfoldable pub same_loop : Text → ℕ → List ℕ → Outcome Bool
same_loop t pos [] = ok true
same_loop t pos (b ∷ bs) = do
  a ← byte_at_int t pos
  let rest = (if leb int_limit (pos + 1) then faults else same_loop t (pos + 1) bs)
  if a == b then rest else ok false

-- `for (size_t i = startPos; i < _size; i++)`, with the rounds left; `pos = i` keeps 32 bits.
unfoldable pub find_loop : Text → List ℕ → ℕ → ℕ → Outcome (Option ℕ)
find_loop t value zero i = ok none
find_loop t value (suc rounds) i =
    let rest = find_loop t value rounds (i + 1) in
    do same ← same_loop t (i % 2 ^ 32) value; if same then ok (some i) else rest

unfoldable pub find : Text → Text → ℕ → Outcome (Option ℕ)
find t value start = find_loop t (contents value) (t.size - start) start

-- The bytes of `CMByteArray temp(_data.get() + pos, n)`.
abbrev pub piece : Text → ℕ → ℕ → List ℕ
piece t pos n = take n (drop pos t.buffer)

unfoldable pub split_loop : Text → Text → ℕ → ℕ → Outcome (List (List ℕ))
split_loop t value zero pos = diverges
split_loop t value (suc fuel) pos =
    let rest = λ (i : ℕ). (do
      pieces ← split_loop t value fuel (i + value.size)
      ok (piece t pos (i - pos) ∷ pieces)) in
    do index ← find t value pos; if_found index (ok []) rest

-- One more round than the bytes of the text.
unfoldable pub split : Text → Text → Outcome (List (List ℕ))
split t value = split_loop t value (suc t.size) 0

-- `remove` throws at a position behind the end, which a count above the size wraps to; `chop` then
-- ends with no `return`, which is undefined.
unfoldable pub chop : Text → ℕ → Outcome Text
chop t count = if ltb t.size count then throws else faults

-- `append(byte, len)` of a text whose buffer no other shares.
unfoldable pub append : Text → List ℕ → Text
append t bytes =
    let size = t.size + length bytes in
    let capacity = length t.buffer in
    let behind =
      if leb size capacity
      then drop size t.buffer
      else replicate ((capacity + length bytes) * 3 / 2 - size) 0 in
    record { buffer = contents t ++ (bytes ++ behind); size = size }

-- `remove(0, len)`: `memcpy` to the front, which is undefined if the ranges overlap, and zeros behind.
unfoldable pub remove_front : Text → ℕ → Outcome Text
remove_front t len =
    let n = if ltb t.size len then t.size else len in
    let moved = t.size - n in
    if ltb n moved
    then faults
    else ok (record {
      buffer = drop n (contents t) ++ replicate (length t.buffer - moved) 0;
      size = moved;
    })
