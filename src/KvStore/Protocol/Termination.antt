-- ===== src/KvStore/Protocol/Termination.antt =====
-- `analysis` of kv_store/Protocol.cpp comes to an end.
use learn_space.Base.{
  ℕ, zero, suc, ◌+◌, ◌<◌, ◌≢◌, Option, none, some, List, [], ◌∷◌, length, ltb, leb, ok, throws,
  faults, diverges, Settles, Settles->>=, Settles-halts, Settles-if_found, ◌==◌, arith,
}
use learn_space.KvStore.Text.{Text, byte_at, split, chop}
use learn_space.KvStore.Text.Termination.{Any, Settles-if, byte_at-Settles, split-Settles}
use learn_space.KvStore.Protocol.{
  crlf, appended, line_loop, get_line, commands, command_index, run_command, run_pieces,
  get_command, string_at, command_len, atoi, signed, sub_size, is_space, bytes_at, analysis_loop,
  analysis,
}

-- A line that is found begins inside the buffer.
abbrev Inside {ℓ} : {A : Type ℓ} → Text → ℕ → Option A → Type 0
Inside t at none = Unit
Inside t at (some i) = at < length t.buffer

line_loop-Settles : (t : Text) (at rounds i : ℕ) → Settles (Inside t at) (line_loop t at rounds i)
unfolding line_loop
line_loop-Settles t at zero i = tt
line_loop-Settles t at (suc rounds) i =
    Settles->>= (λ _. at + i < length t.buffer) (Inside t at) (byte_at t (at + i)) _
      (byte_at-Settles t (at + i))
      λ a inside.
        Settles->>= Any (Inside t at) _ _
          (Settles-if Any (a == b'\r') _ _
            (Settles->>= (λ _. at + i + 1 < length t.buffer) Any (byte_at t (at + i + 1)) _
              (byte_at-Settles t (at + i + 1)) (λ b _. tt))
            tt)
          λ found _.
            Settles-if (Inside t at) found _ _ (omega arith) (line_loop-Settles t at rounds (i + 1))

get_line-Settles : (t : Text) (at size : ℕ) → Settles (Inside t at) (get_line t at size)
unfolding get_line
get_line-Settles t at size =
    Settles->>= (Inside t at) (Inside t at) (line_loop t at (sub_size size 1) 0) _
      (line_loop-Settles t at (sub_size size 1) 0)
      λ o inside. Settles-if_found (Inside t at) (Inside t at) o (ok none) _ inside tt (λ i h. h)

signed-Settles : (bs : List ℕ) → Settles Any (signed bs)
signed-Settles [] = tt
signed-Settles (b ∷ bs) = ground arith

atoi-Settles : (bs : List ℕ) → Settles Any (atoi bs)
atoi-Settles [] = tt
atoi-Settles (b ∷ bs) = Settles-if Any (is_space b) _ _ (atoi-Settles bs) (signed-Settles (b ∷ bs))

string_at-Settles : (bs : List ℕ) → Settles Any (string_at bs)
string_at-Settles [] = tt
string_at-Settles (b ∷ bs) =
    Settles-if Any (b == 0) _ _ tt
      (Settles->>= Any Any (string_at bs) _ (string_at-Settles bs) (λ s _. tt))

command_len-Settles : (header : List ℕ) → Settles Any (command_len header)
unfolding command_len
command_len-Settles header =
    Settles->>= Any Any (string_at (appended header).buffer) _
      (string_at-Settles (appended header).buffer) (λ s _. atoi-Settles s)

bytes_at-Settles : (t : Text) (at n : ℕ) → Settles Any (bytes_at t at n)
bytes_at-Settles t at n = ground arith

run_command-Settles : (pieces : List (List ℕ)) (type : ℕ) → Settles Any (run_command pieces type)
unfolding run_command chop
run_command-Settles [] type =
    Settles-if Any (type == 0) _ _ tt (Settles-if Any (leb 4 type) (ok tt) faults tt tt)
run_command-Settles (a ∷ []) type =
    Settles-if Any (type == 0) _ _ tt (Settles-if Any (leb 4 type) (ok tt) faults tt tt)
run_command-Settles (a ∷ b ∷ rest) type =
    Settles-if Any (type == 0) _ _
      (Settles->>= Any Any _ _ (Settles-if Any (ltb (length b) 2) throws faults tt tt) (λ c _. tt))
      (Settles-if Any (leb 4 type) (ok tt) faults tt tt)

run_pieces-Settles : (pieces : List (List ℕ)) → Settles Any (run_pieces pieces)
run_pieces-Settles [] = tt
run_pieces-Settles (name ∷ rest) = run_command-Settles (name ∷ rest) (command_index name commands)

get_command-Settles : (command : Text) → Settles Any (get_command command)
unfolding get_command
get_command-Settles command =
    Settles->>= Any Any (split command crlf) _ (split-Settles command crlf (omega arith))
      λ pieces _. run_pieces-Settles pieces

analysis_loop-Settles :
    (t : Text) (fuel current at size : ℕ)
    → 0 < fuel
    → length t.buffer < fuel + at
    → Settles Any (analysis_loop t fuel current at size)
unfolding analysis_loop
analysis_loop-Settles t zero current at size first enough = absurd (omega arith)
analysis_loop-Settles t (suc fuel) current at size first enough =
    let current1 = λ (header : List ℕ). current + (length header + 2) in
    let size1 = λ (header : List ℕ). sub_size size (current1 header) in
    let next = λ (header : List ℕ) (here : at < length t.buffer).
      Settles->>= Any Any (command_len header) _ (command_len-Settles header) λ n _.
        Settles-if Any (ltb (size1 header) n) (ok (current1 header)) _ tt (
          Settles->>= Any Any (bytes_at t (at + current1 header) n) _
            (bytes_at-Settles t (at + current1 header) n)
            λ command _.
              Settles->>= Any Any (get_command (appended command)) _
                (get_command-Settles (appended command))
                λ done _.
                  analysis_loop-Settles t fuel (current1 header + n) (at + current1 header)
                    (size1 header) (omega arith) (omega arith)) in
    Settles-if Any (ltb current size) _ _
      (Settles->>= (Inside t at) Any (get_line t at size) _ (get_line-Settles t at size) λ o inside.
        Settles-if_found (Inside t at) Any o (ok current) _ inside tt
          (λ header here. next header here))
      tt

-- `analysis` comes to an end, whatever the text holds.
pub analysis_ends : (t : Text) → analysis t ≢ diverges
unfolding analysis
analysis_ends t =
    Settles-halts Any _
      (analysis_loop-Settles t (suc (length t.buffer)) 0 0 t.size (omega arith) (omega arith))
