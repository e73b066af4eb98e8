-- ===== src/ByteArray.antt =====
-- base/CMByteArray.h and base/CMByteArray.cpp: `CMByteArray`, an array of bytes that copies share.
-- The buffers are in a store, each with the count of the arrays that share it (`std::shared_ptr`);
-- it is freed when the count comes to 0. `size_t` sums are not bounded. A method that takes bytes
-- from another array gets them as they are before the call.
pub mod Holds
pub mod Append
pub mod Share
pub mod Remove
mod Tests
use learn_space.Base.{
  ℕ, zero, suc, ◌+◌, ◌-◌, ◌*◌, ◌/◌, Bool, true, false, ◌&&◌, Option, none, some, List, [], ◌∷◌,
  ◌++◌, length, take, drop, replicate, get_elem?, if◌then◌else◌, ltb, leb, ◌==◌, Outcome, ok,
  faults, ◌>>=◌, ◌>>◌, throw_if, throws, no_except, defined,
}

-- `_defInitcapacity`
abbrev pub def_initcapacity : ℕ
def_initcapacity = 1024

pub record Store : Type 0 where
  pub buffer : ℕ → Option (List ℕ)
  pub uses : ℕ → ℕ
  pub fresh : ℕ

pub record ByteArray : Type 0 where
  pub pointer : Option ℕ
  pub size : ℕ
  pub capacity : ℕ

-- A function after one write.
abbrev pub update {ℓ} : {B : Type ℓ} → (ℕ → B) → ℕ → B → ℕ → B
update f p v q = if p == q then v else f q

-- A pointer to a buffer is copied, and let go.
unfoldable pub acquire : Store → Option ℕ → Store
acquire s none = s
acquire s (some p) = record s { uses = update s.uses p (s.uses p + 1) }

unfoldable pub release : Store → Option ℕ → Store
release s none = s
release s (some p) = record s {
  uses = update s.uses p (s.uses p - 1);
  buffer = if s.uses p == 1 then update s.buffer p none else s.buffer;
}

-- The buffer of an array; a null or freed one is undefined.
abbrev pub contents : Store → Option ℕ → Outcome (List ℕ)
contents s none = faults
contents s (some p) = elim (s.buffer p) [ none ↦ faults | some b ↦ ok b ]

-- `_data.unique()`
abbrev pub unique : Store → Option ℕ → Bool
unique s none = false
unique s (some p) = s.uses p == 1

-- `memcpy` to a buffer, at `pos`; it must not go beyond the end.
abbrev pub put_bytes : List ℕ → ℕ → List ℕ → Outcome (List ℕ)
put_bytes buf pos bytes = do
  defined (leb (pos + length bytes) (length buf))
  ok (take pos buf ++ (bytes ++ drop (pos + length bytes) buf))

-- The bytes of a buffer from `pos` on.
abbrev pub get_bytes : List ℕ → ℕ → ℕ → Outcome (List ℕ)
get_bytes buf pos len = do defined (leb (pos + len) (length buf)); ok (take len (drop pos buf))

abbrev pub set_buffer : Store → Option ℕ → List ℕ → Store
set_buffer s none buf = s
set_buffer s (some p) buf = record s { buffer = update s.buffer p (some buf) }

-- The bytes of an array, `_size` of them from `_data.get()`; none of a null pointer.
unfoldable pub bytes_of : Store → ByteArray → Outcome (List ℕ)
bytes_of s str =
    if str.size == 0 then ok [] else do buf ← contents s str.pointer; get_bytes buf 0 str.size

-- `new char[0] {0}` throws: the list is longer than the array.
unfoldable pub reset_buffer : Store → ByteArray → Outcome (Store × ByteArray)
unfolding release bytes_of
reset_buffer s b = do
  throw_if (b.capacity == 0)
  bytes ← bytes_of s b
  buf ← put_bytes (replicate b.capacity 0) 0 bytes
  let s1 = record s {
    buffer = update s.buffer s.fresh (some buf);
    uses = update s.uses s.fresh 1;
    fresh = s.fresh + 1;
  }
  ok (release s1 b.pointer, record b { pointer = some s.fresh })

-- `_capacity` in `insertElement`: 1.5 times what is needed and was there, cut to a whole number
abbrev pub grown : ByteArray → ℕ → ℕ
grown b len = if ltb b.capacity (b.size + len) then (b.capacity + len) * 3 / 2 else b.capacity

-- The two copies of `insertElement`: of the bytes from `pos` on to the end, and of the new ones.
abbrev pub splice : List ℕ → ℕ → ℕ → List ℕ → Outcome (List ℕ)
splice buf size pos bytes = do
  tail ← get_bytes buf pos (size - pos)
  buf1 ← put_bytes buf size tail
  put_bytes buf1 pos bytes

abbrev pub write_spliced : Store → ByteArray → ℕ → List ℕ → Outcome (Store × ByteArray)
write_spliced s b pos bytes = do
  buf ← contents s b.pointer
  buf2 ← splice buf b.size pos bytes
  ok (set_buffer s b.pointer buf2, record b { size = b.size + length bytes })

unfoldable pub insert_element : Store → ByteArray → ℕ → List ℕ → Outcome (Store × ByteArray)
unfolding reset_buffer
insert_element s b pos bytes = do
  throw_if (ltb b.size pos)
  let b1 = record b { capacity = grown b (length bytes) }
  (s2, b2) ← (if unique s b1.pointer then ok (s, b1) else reset_buffer s b1)
  write_spliced s2 b2 pos bytes

-- The rest of `reomveElement`; `memcpy` within a buffer needs the two ranges to be apart.
abbrev pub erase : Store → ByteArray → ℕ → ℕ → Outcome (Store × ByteArray)
erase s b pos len = do
  let cut = if ltb (b.size - pos) len then b.size - pos else len
  let move_size = (b.size - pos) - cut
  buf ← contents s b.pointer
  defined (leb move_size cut)
  tail ← get_bytes buf (pos + cut) move_size
  buf1 ← put_bytes buf pos tail
  let size = b.size - cut
  buf2 ← put_bytes buf1 size (replicate (b.capacity - size) 0)
  ok (set_buffer s b.pointer buf2, record b { size = size })

unfoldable pub remove_element : Store → ByteArray → ℕ → ℕ → Outcome (Store × ByteArray)
unfolding reset_buffer
remove_element s b pos len = do
  throw_if (ltb b.size pos)
  (s1, b1) ← (if unique s b.pointer then ok (s, b) else reset_buffer s b)
  erase s1 b1 pos len

-- The bytes of a C string.
abbrev pub c_string : List ℕ → List ℕ
c_string [] = []
c_string (c ∷ str) = let rest = c_string str in if c == 0 then [] else c ∷ rest

-- `CMByteArray()`; the buffer of an array that is being made is null.
unfoldable pub construct : Store → Outcome (Store × ByteArray)
construct s =
    no_except (reset_buffer s (record { pointer = none; size = 0; capacity = def_initcapacity }))

-- `CMByteArray(const char* str)`
unfoldable pub construct_str : Store → List ℕ → Outcome (Store × ByteArray)
construct_str s str = no_except (do
  (s1, b) ← reset_buffer s (record { pointer = none; size = 0; capacity = length (c_string str) })
  insert_element s1 b 0 (c_string str))

-- `CMByteArray(size_t capacity)`
unfoldable pub construct_capacity : Store → ℕ → Outcome (Store × ByteArray)
construct_capacity s capacity =
    no_except (reset_buffer s (record { pointer = none; size = 0; capacity = capacity }))

-- `CMByteArray(const char* str, size_t len)`, of the bytes at `str`
unfoldable pub construct_len : Store → List ℕ → Outcome (Store × ByteArray)
construct_len s bytes = no_except (do
  (s1, b) ← reset_buffer s (record { pointer = none; size = length bytes; capacity = length bytes })
  insert_element s1 b 0 bytes)

-- `CMByteArray(const CMByteArray& other)`
unfoldable pub copy : Store → ByteArray → Store × ByteArray
copy s other = (acquire s other.pointer, other)

-- The move constructor: the store, the new array and the old one.
unfoldable pub move : Store → ByteArray → Store × ByteArray × ByteArray
move s other = (
  release (acquire s other.pointer) other.pointer,
  other,
  record { pointer = none; size = 0; capacity = 0 },
)

-- `operator=`
unfoldable pub assign : Store → ByteArray → ByteArray → Store × ByteArray
assign s b other = (release (acquire s other.pointer) b.pointer, other)

-- `append`, `insert` and `prepend` of bytes; the overloads for a C string take `c_string str`.
unfoldable pub append : Store → ByteArray → List ℕ → Outcome (Store × ByteArray)
append s b bytes = insert_element s b b.size bytes

unfoldable pub insert : Store → ByteArray → ℕ → List ℕ → Outcome (Store × ByteArray)
insert s b pos bytes = insert_element s b pos bytes

unfoldable pub prepend : Store → ByteArray → List ℕ → Outcome (Store × ByteArray)
prepend s b bytes = insert_element s b 0 bytes

-- The same of another array.
unfoldable pub append_array : Store → ByteArray → ByteArray → Outcome (Store × ByteArray)
append_array s b str = do bytes ← bytes_of s str; insert_element s b b.size bytes

unfoldable pub insert_array : Store → ByteArray → ℕ → ByteArray → Outcome (Store × ByteArray)
insert_array s b pos str = do bytes ← bytes_of s str; insert_element s b pos bytes

unfoldable pub prepend_array : Store → ByteArray → ByteArray → Outcome (Store × ByteArray)
prepend_array s b str = do bytes ← bytes_of s str; insert_element s b 0 bytes

unfoldable pub remove : Store → ByteArray → ℕ → ℕ → Outcome (Store × ByteArray)
remove s b pos len = remove_element s b pos len

unfoldable pub detach : Store → ByteArray → Outcome (Store × ByteArray)
detach s b = if unique s b.pointer then ok (s, b) else reset_buffer s b

unfoldable pub clear : Store → ByteArray → Outcome (Store × ByteArray)
clear s b = reset_buffer s (record b { size = 0; capacity = def_initcapacity })

unfoldable pub reserve : Store → ByteArray → ℕ → Outcome (Store × ByteArray)
reserve s b size = reset_buffer s (record b { size = 0; capacity = size })

unfoldable pub squeeze : Store → ByteArray → Outcome (Store × ByteArray)
squeeze s b = reset_buffer s (record b { capacity = b.size })

unfoldable pub at : Store → ByteArray → ℕ → Outcome ℕ
at s b pos = do
  throw_if (leb b.size pos)
  buf ← contents s b.pointer
  elim (get_elem? buf pos) [ none ↦ faults | some c ↦ ok c ]

unfoldable pub front : Store → ByteArray → Outcome ℕ
front s b = at s b 0

-- The index of `back` on an empty array wraps, to more than any size.
unfoldable pub back : Store → ByteArray → Outcome ℕ
back s b = if b.size == 0 then throws else at s b (b.size - 1)
