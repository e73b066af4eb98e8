-- ===== src/KvStore/Protocol.antt =====
-- `ProtocolHelper::analysis` of kv_store/Protocol.cpp. The list that it returns is always empty, and
-- is left out: what is kept is `dissipativeSize`. `size_t` has 64 bits.
pub mod Command
pub mod Frame
pub mod Termination
use learn_space.Base.{
  ℕ, zero, suc, ◌+◌, ◌-◌, ◌*◌, ◌/◌, ◌%◌, ◌^◌, Bool, true, false, ◌&&◌, ◌||◌, Option, none, some,
  List, [], ◌∷◌, ◌++◌, length, take, drop, replicate, get_elem?, Outcome, ok, faults, throws,
  diverges, ◌>>=◌, ◌>>◌, if◌then◌else◌, ◌==◌, ltb, leb, if_found,
}
use learn_space.KvStore.Text.{Text, byte_at, split, chop}

abbrev pub size_limit : ℕ
size_limit = 2 ^ 64

abbrev pub sub_size : ℕ → ℕ → ℕ
sub_size a b = (a + (size_limit - b)) % size_limit

-- `CMByteArray` with `n` bytes appended to it; its capacity starts at 1024.
abbrev pub appended : List ℕ → Text
appended bytes =
    let n = length bytes in
    let capacity = if leb n 1024 then 1024 else (1024 + n) * 3 / 2 in
    record { buffer = bytes ++ replicate (capacity - n) 0; size = n }

abbrev pub crlf : Text
crlf = record { buffer = b'\r' ∷ b'\n' ∷ []; size = 2 }

-- The `i` of `getLine` where "\r\n" stands, with the rounds left.
pub line_loop : Text → ℕ → ℕ → ℕ → Outcome (Option ℕ)
line_loop t at zero i = ok none
line_loop t at (suc rounds) i =
    let rest = line_loop t at rounds (i + 1) in
    do
      a ← byte_at t (at + i)
      found ← (if a == b'\r' then (do b ← byte_at t (at + i + 1); ok (b == b'\n')) else ok false)
      if found then ok (some i) else rest

-- `getLine(data, size, line)`, with `data` at the position `at` of the message.
pub get_line : Text → ℕ → ℕ → Outcome (Option (List ℕ))
get_line t at size = do
  found ← line_loop t at (sub_size size 1) 0
  if_found found (ok none) (λ i. ok (some (take i (drop at t.buffer))))

-- `_command`
abbrev pub commands : List (List ℕ)
commands =
    (b'G' ∷ b'e' ∷ b't' ∷ [])
    ∷ (b'S' ∷ b'e' ∷ b't' ∷ [])
    ∷ (b'D' ∷ b'e' ∷ b'l' ∷ [])
    ∷ (b'E' ∷ b'x' ∷ b'i' ∷ b's' ∷ b't' ∷ [])
    ∷ []

-- The bytes in front of the first NUL, as `strcmp` reads them.
abbrev pub c_string : List ℕ → List ℕ
c_string [] = []
c_string (b ∷ bs) = if b == 0 then [] else b ∷ c_string bs

abbrev pub same_bytes : List ℕ → List ℕ → Bool
same_bytes [] [] = true
same_bytes [] (b ∷ ys) = false
same_bytes (a ∷ xs) [] = false
same_bytes (a ∷ xs) (b ∷ ys) = a == b && same_bytes xs ys

-- The index of a command; the number of commands for what is none.
abbrev pub command_index : List ℕ → List (List ℕ) → ℕ
command_index name [] = 0
command_index name (c ∷ cs) =
    if same_bytes (c_string name) c then 0 else suc (command_index name cs)

-- `arrays.at(1)`
abbrev pub second : List (List ℕ) → Outcome (List ℕ)
second [] = throws
second (a ∷ []) = throws
second (a ∷ b ∷ rest) = ok b

-- The switch: `default` returns, `Get` calls `chop`, and where the switch is left the lambda ends
-- with no `return`, which is undefined.
pub run_command : List (List ℕ) → ℕ → Outcome (Unit {0})
run_command pieces type =
    if type == 0
    then (do
      key ← second pieces
      chopped ← chop (record { buffer = key ++ 0 ∷ []; size = length key }) 2
      faults)
    else if leb 4 type
    then ok tt
    else faults

abbrev pub run_pieces : List (List ℕ) → Outcome (Unit {0})
run_pieces [] = ok tt
run_pieces (name ∷ rest) = run_command (name ∷ rest) (command_index name commands)

pub get_command : Text → Outcome (Unit {0})
get_command command = do pieces ← split command crlf; run_pieces pieces

abbrev pub is_space : ℕ → Bool
is_space b = b == b' ' || (leb 9 b && leb b 13)

abbrev pub is_digit : ℕ → Bool
is_digit b = leb b'0' b && leb b b'9'

abbrev pub digits : ℕ → List ℕ → ℕ
digits n [] = n
digits n (b ∷ bs) = if is_digit b then digits (n * 10 + (b - b'0')) bs else n

abbrev pub signed : List ℕ → Outcome ℕ
signed [] = ok 0
signed (b ∷ bs) =
    let n = digits 0 (if b == b'-' || b == b'+' then bs else b ∷ bs) in
    if leb (if b == b'-' then 2 ^ 31 + 1 else 2 ^ 31) n
    then faults
    else ok (if b == b'-' then sub_size 0 n else n)

-- `atoi`, its `int` converted to `size_t`; a value that no `int` holds is undefined.
abbrev pub atoi : List ℕ → Outcome ℕ
atoi [] = ok 0
atoi (b ∷ bs) = if is_space b then atoi bs else signed (b ∷ bs)

-- A C string: the bytes in front of the first NUL. Without one in the buffer it is none, and to read it
-- is undefined.
abbrev pub string_at : List ℕ → Outcome (List ℕ)
string_at [] = faults
string_at (b ∷ bs) = let rest = string_at bs in if b == 0 then ok [] else (do s ← rest; ok (b ∷ s))

-- `atoi(commandHeader.constData())`, for the header with these bytes.
unfoldable pub command_len : List ℕ → Outcome ℕ
command_len header = do s ← string_at (appended header).buffer; atoi s

-- The bytes that `command.append(data, n)` reads.
abbrev pub bytes_at : Text → ℕ → ℕ → Outcome (List ℕ)
bytes_at t at n = if leb (at + n) (length t.buffer) then ok (take n (drop at t.buffer)) else faults

-- `while (currentPos < size)`, with `data` at the position `at`.
unfoldable pub analysis_loop : Text → ℕ → ℕ → ℕ → ℕ → Outcome ℕ
analysis_loop t zero current at size = diverges
analysis_loop t (suc fuel) current at size =
    let rest = λ (header : List ℕ). (do
      let current1 = current + (length header + 2)
      let at1 = at + current1
      let size1 = sub_size size current1
      n ← command_len header
      let next = (do
        command ← bytes_at t at1 n
        get_command (appended command)
        analysis_loop t fuel (current1 + n) at1 size1)
      if ltb size1 n then ok current1 else next) in
    if ltb current size
    then (do line ← get_line t at size; if_found line (ok current) rest)
    else ok current

-- `analysis(msgData, dissipativeSize)`; each round moves `data` on by two bytes or more.
unfoldable pub analysis : Text → Outcome ℕ
analysis t = analysis_loop t (suc (length t.buffer)) 0 0 t.size
