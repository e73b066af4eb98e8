-- ===== src/KvStore/Protocol/Frame.antt =====
-- One message of kv_store/Protocol.cpp: a header, "\r\n", and a body of the length that it gives.
use mathlib.Core.Path.{subst}
use learn_space.Base.{
  ℕ, zero, suc, ◌+◌, ◌-◌, ◌<◌, ◌≤◌, ◌≡◌, ◌≢◌, ◌⊎◌, throws, faults, refl, sym, ap, ◌∙◌, none, some,
  List, [], ◌∷◌, ◌++◌, length, length-append, take, drop, take-append, drop-append, drop-drop,
  ltb→lt, All, ok, ◌>>◌, ne→==, ltb, lt→ltb, le→ltb, le→leb, Bool-cases, inl, inr, arith,
  if◌then◌else◌,
}
use learn_space.KvStore.Text.{Text, split}
use learn_space.KvStore.Text.Find.{drop_head}
use learn_space.KvStore.Protocol.Command.{get_command-Fails}
use learn_space.KvStore.Protocol.{
  appended, crlf, commands, command_index, line_loop, get_line, get_command, command_len, bytes_at,
  analysis_loop, analysis, size_limit, sub_size,
}

line_loop-here :
    (t : Text) (at : ℕ) (header rest : List ℕ) (rounds i : ℕ)
    → drop (at + i) t.buffer ≡ header ++ b'\r' ∷ b'\n' ∷ rest
    → All (λ b. b ≢ b'\r') header
    → length header < rounds
    → line_loop t at rounds i ≡ ok (some (i + length header))
unfolding line_loop
line_loop-here t at header rest zero i e other few = absurd (omega arith)
line_loop-here t at [] rest (suc rounds) i e other few =
    let (here, behind) = drop_head t.buffer (at + i) b'\r' (b'\n' ∷ rest) e in
    let (next, more) = drop_head t.buffer (at + i + 1) b'\n' rest behind in
    rw (here, next) (ap (λ (n : ℕ). ok (some n)) (let same : i ≡ i + 0 = omega arith in same))
line_loop-here t at (b ∷ header) rest (suc rounds) i e other few =
    let (here, behind) = drop_head t.buffer (at + i) b (header ++ b'\r' ∷ b'\n' ∷ rest) e in
    let next : at + i + 1 ≡ at + (i + 1) = omega arith in
    let far : i + 1 + length header ≡ i + suc (length header) = omega arith in
    rw (here, ne→== b b'\r' other.0)
      (line_loop-here t at header rest rounds (i + 1) (rw next at behind) other.1 (omega arith)
        ∙ ap (λ (n : ℕ). ok (some n)) far)

-- A text that holds a header without '\r', "\r\n" and a body.
pub record Frame (t : Text) (header body : List ℕ) : Type 0 where
  pub rest : List ℕ
  pub whole : t.buffer ≡ header ++ b'\r' ∷ b'\n' ∷ (body ++ rest)
  pub sized : t.size ≡ length header + 2 + length body
  pub plain : All (λ b. b ≢ b'\r') header
  pub small : t.size < size_limit

get_line_lem :
    (t : Text) (header body : List ℕ) → Frame t header body → get_line t 0 t.size ≡ ok (some header)
unfolding get_line
get_line_lem t header body f =
    let rounds : length header < sub_size t.size 1 = omega (arith, f.sized, f.small) in
    let found =
      line_loop-here t 0 header (body ++ f.rest) (sub_size t.size 1) 0 f.whole f.plain rounds in
    let zero_ : 0 + length header ≡ length header = omega arith in
    let cut : take (length header) t.buffer ≡ header =
      ap (take (length header)) f.whole
      ∙ take-append (length header) header (b'\r' ∷ b'\n' ∷ (body ++ f.rest)) refl in
    rw (found, zero_, cut) refl

-- The body, behind the header and "\r\n".
body_bytes :
    (t : Text) (header body : List ℕ)
    → Frame t header body
    → bytes_at t (length header + 2) (length body) ≡ ok body
body_bytes t header body f =
    let long : length header + 2 + length body ≤ length t.buffer = omega (
      arith,
      ap length f.whole,
      length-append header (b'\r' ∷ b'\n' ∷ (body ++ f.rest)),
      length-append body f.rest,
    ) in
    let behind : drop (length header + 2) t.buffer ≡ body ++ f.rest =
      sym (drop-drop 2 (length header) t.buffer)
      ∙ ap (λ l. drop 2 (drop (length header) l)) f.whole
      ∙ ap (drop 2) (drop-append (length header) header (b'\r' ∷ b'\n' ∷ (body ++ f.rest)) refl) in
    let cut = ap (take (length body)) behind ∙ take-append (length body) body f.rest refl in
    rw (le→leb (length header + 2 + length body) (length t.buffer) long, cut) refl

stops :
    (t : Text) (fuel current at size : ℕ)
    → size ≤ current
    → analysis_loop t (suc fuel) current at size ≡ ok current
unfolding analysis_loop
stops t fuel current at size h = rw (le→ltb current size h) refl

module _ (t : Text) (fuel : ℕ) (header body : List ℕ) (n : ℕ) (f : Frame t header body)
    (reads : command_len header ≡ ok n) where
  round_short : length body < n → analysis_loop t (suc fuel) 0 0 t.size ≡ ok (length header + 2)
  unfolding analysis_loop
  round_short short =
      let left : sub_size t.size (0 + (length header + 2)) ≡ length body =
        omega (arith, f.sized, f.small) in
      rw
        (
          lt→ltb 0 t.size (omega (arith, f.sized)),
          get_line_lem t header body f,
          reads,
          left,
          lt→ltb (length body) n short,
        )
        (ap (λ (k : ℕ). ok k)
          (let same : 0 + (length header + 2) ≡ length header + 2 = omega arith in same))

  round_full :
      length body ≡ n
      → analysis_loop t (suc fuel) 0 0 t.size ≡ (
          get_command (appended body)
          >> analysis_loop t fuel (length header + 2 + n) (length header + 2) (length body))
  unfolding analysis_loop
  round_full full =
      let left : sub_size t.size (0 + (length header + 2)) ≡ length body =
        omega (arith, f.sized, f.small) in
      let start : 0 + (length header + 2) ≡ length header + 2 = omega arith in
      let bytes =
        subst (λ k. bytes_at t (length header + 2) k ≡ ok body) full (body_bytes t header body f) in
      rw
        (
          lt→ltb 0 t.size (omega (arith, f.sized)),
          get_line_lem t header body f,
          reads,
          left,
          le→ltb (length body) n (omega arith),
          start,
          start,
          bytes,
        )
        refl

-- `analysis` of a text below 2 ^ 64 bytes that holds one message and nothing behind it, with a header
-- without '\r' that is a C string in its buffer and that `atoi` reads as `n`, and a body of at most
-- `n` bytes: if the body is shorter than `n` it passes over the header and `\r\n`, and else it runs
-- the body as a command and, if that ends normally, passes over the whole message.
pub analysis-Frame :
    (t : Text) (header body : List ℕ) (n : ℕ)
    → Frame t header body
    → command_len header ≡ ok n
    → length body ≤ n
    → analysis t ≡ (
        if ltb (length body) n
        then ok (length header + 2)
        else (get_command (appended body) >> ok (length header + 2 + n)))
unfolding analysis
analysis-Frame t header body n f reads at_most = elim (Bool-cases (ltb (length body) n)) [
  | inl short ↦
      rw short
        (round_short t (length t.buffer) header body n f reads (ltb→lt (length body) n short))
  | inr full ↦
      let same : length body ≡ n = ground arith in
      let bytes : length t.buffer ≡ suc (length t.buffer - 1) =
        omega (arith, ap length f.whole, length-append header (b'\r' ∷ b'\n' ∷ (body ++ f.rest))) in
      rw full (
        round_full t (length t.buffer) header body n f reads same
        ∙ ap (λ m. get_command (appended body) >> m)
            (ap (λ k. analysis_loop t k (length header + 2 + n) (length header + 2) (length body))
                bytes
              ∙ stops t (length t.buffer - 1) (length header + 2 + n) (length header + 2)
                  (length body) (omega arith)))
]

-- `analysis` of a text that holds one whole message and nothing behind it, whose first piece is the name of
-- a command, ends in an exception or in undefined behaviour.
pub analysis_command :
    (t : Text) (header body name : List ℕ) (rest : List (List ℕ))
    → Frame t header body
    → command_len header ≡ ok (length body)
    → split (appended body) crlf ≡ ok (name ∷ rest)
    → command_index name commands < 4
    → (analysis t ≡ throws) ⊎ (analysis t ≡ faults)
analysis_command t header body name rest f reads cut known =
    let n = length body in
    let all = analysis-Frame t header body n f reads (omega arith) in
    let whole : analysis t ≡ (get_command (appended body) >> ok (length header + 2 + n)) =
      rw (le→ltb n n (omega arith)) at all in
    elim (get_command-Fails (appended body) name rest cut known) [
      | inl thrown ↦ inl (whole ∙ ap (λ m. m >> ok (length header + 2 + n)) thrown)
      | inr wrong ↦ inr (whole ∙ ap (λ m. m >> ok (length header + 2 + n)) wrong)
    ]

no_line :
    (t : Text) (at : ℕ) (xs rest : List ℕ) (rounds i : ℕ)
    → drop (at + i) t.buffer ≡ xs ++ rest
    → All (λ b. b ≢ b'\r') xs
    → rounds ≤ length xs
    → line_loop t at rounds i ≡ ok none
unfolding line_loop
no_line t at xs rest zero i e other few = refl
no_line t at [] rest (suc rounds) i e other few = absurd (omega arith)
no_line t at (b ∷ xs) rest (suc rounds) i e other few =
    let (here, behind) = drop_head t.buffer (at + i) b (xs ++ rest) e in
    let next : at + i + 1 ≡ at + (i + 1) = omega arith in
    rw (here, ne→== b b'\r' other.0)
      (no_line t at xs rest rounds (i + 1) (rw next at behind) other.1 (omega arith))

-- `analysis` of a text that holds no '\r' passes over nothing.
pub analysis_waits :
    (t : Text) (xs rest : List ℕ)
    → t.buffer ≡ xs ++ rest
    → t.size ≡ length xs
    → t.size < size_limit
    → All (λ b. b ≢ b'\r') xs
    → analysis t ≡ ok 0
unfolding analysis analysis_loop get_line
analysis_waits t xs rest whole sized small plain = elim (Bool-cases (ltb 0 t.size)) [
  | inl some_byte ↦
      let rounds : sub_size t.size 1 ≤ length xs = ground (arith, sized, small) in
      rw (some_byte, no_line t 0 xs rest (sub_size t.size 1) 0 whole plain rounds) refl
  | inr empty ↦ rw empty refl
]
