-- ===== src/KvStore/Text/Find.antt =====
-- `find` gives the first place at which the value stands.
use mathlib.Core.Option
use learn_space.Base.{
  ℕ, zero, suc, ◌+◌, ◌-◌, ◌≤◌, ◌≡◌, ◌≢◌, refl, sym, ap, ◌∙◌, Bool, true, false, Option, none, some,
  List, [], ◌∷◌, ◌++◌, length, length-drop, get_elem?, drop, All, ok, ◌&&◌, if◌then◌else◌, ◌==◌,
  ne→==, lt→leb, ◌<◌, ◌%◌, ◌^◌, Bool-cases, inl, inr, arith,
}
use learn_space.KvStore.Text.{int_limit, Text, contents, same_loop, find_loop, find}

-- `v` stands at the head of the list.
abbrev pub starts : List ℕ → List ℕ → Bool
starts [] xs = true
starts (b ∷ bs) [] = false
starts (b ∷ bs) (x ∷ xs) = x == b && starts bs xs

-- The first place at which `v` stands.
abbrev pub search : List ℕ → List ℕ → Option ℕ
search v [] = none
search v (x ∷ xs) = if starts v (x ∷ xs) then some 0 else Option.map suc (search v xs)

abbrev pub NoZero : List ℕ → Type 0
NoZero = All (λ b. b ≢ 0)

-- The first byte of what is behind a position, and the rest.
pub drop_head :
    {A : Type 0} (xs : List A) (n : ℕ) (y : A) (ys : List A)
    → drop n xs ≡ y ∷ ys
    → (get_elem? xs n ≡ some y) × (drop (n + 1) xs ≡ ys)
drop_head [] zero y ys e = absurd (cc e)
drop_head [] (suc n) y ys e = absurd (cc e)
drop_head (x ∷ xs) zero y ys e = (cc e, cc e)
drop_head (x ∷ xs) (suc n) y ys e =
    let (a, b) = drop_head xs n y ys e in
    let more : suc n + 1 ≡ suc (n + 1) = omega arith in (a, rw more b)

same_loop-starts :
    (t : Text) (v : List ℕ) (pos : ℕ) (xs rest : List ℕ)
    → NoZero v
    → drop pos t.buffer ≡ xs ++ 0 ∷ rest
    → pos + length xs < int_limit
    → same_loop t pos v ≡ ok (starts v xs)
unfolding same_loop
same_loop-starts t [] pos xs rest nz e small = refl
same_loop-starts t (b ∷ bs) pos [] rest nz e small =
    let (at, behind) = drop_head t.buffer pos 0 rest e in
    rw (lt→leb int_limit pos (omega (arith, small)), at, ne→== 0 b (λ s. nz.0 (sym s))) refl
same_loop-starts t (b ∷ bs) pos (x ∷ xs) rest nz e small =
    let (at, behind) = drop_head t.buffer pos x (xs ++ 0 ∷ rest) e in
    let here = lt→leb int_limit pos (omega (arith, small)) in
    let next = lt→leb int_limit (pos + 1) (omega (arith, small)) in
    elim (Bool-cases (x == b)) [
      | inl same ↦
          rw (here, at, same, next)
            (same_loop-starts t bs (pos + 1) xs rest nz.1 behind (omega (arith, small)))
      | inr other ↦ rw (here, at, other) refl
    ]

shifted_zero : (pos : ℕ) → ok (some pos) ≡ ok (some (pos + 0))
shifted_zero pos = ap (λ (n : ℕ). ok (some n)) (let same : pos ≡ pos + 0 = omega arith in same)

shifted :
    (pos : ℕ) (o : Option ℕ)
    → Option.map (λ i. (pos + 1) + i) o ≡ Option.map (λ i. pos + i) (Option.map suc o)
shifted pos none = refl
shifted pos (some i) = ap some (let same : (pos + 1) + i ≡ pos + suc i = omega arith in same)

pub find_loop-search :
    (t : Text) (v : List ℕ) (pos : ℕ) (xs rest : List ℕ)
    → NoZero v
    → drop pos t.buffer ≡ xs ++ 0 ∷ rest
    → pos + length xs < int_limit
    → find_loop t v (length xs) pos ≡ ok (Option.map (λ i. pos + i) (search v xs))
unfolding find_loop
find_loop-search t v pos [] rest nz e small = refl
find_loop-search t v pos (x ∷ xs) rest nz e small =
    let narrow : pos % 2 ^ 32 ≡ pos = omega (arith, small) in
    let behind = (drop_head t.buffer pos x (xs ++ 0 ∷ rest) e).1 in
    let same = same_loop-starts t v pos (x ∷ xs) rest nz e small in
    let later = find_loop-search t v (pos + 1) xs rest nz behind (omega (arith, small)) in
    elim (Bool-cases (starts v (x ∷ xs))) [
      | inl here ↦ rw (narrow, same, here) (shifted_zero pos)
      | inr other ↦ rw (narrow, same, other) (later ∙ ap ok (shifted pos (search v xs)))
    ]

-- A text with the bytes `xs`, fewer than 2 ^ 31, and a NUL behind them.
pub record Ends (t : Text) (xs : List ℕ) : Type 0 where
  pub rest : List ℕ
  pub whole : t.buffer ≡ xs ++ 0 ∷ rest
  pub sized : t.size ≡ length xs
  pub small : length xs < int_limit

pub drop-append_le :
    {A : Type 0} (n : ℕ) (xs ys : List A) → n ≤ length xs → drop n (xs ++ ys) ≡ drop n xs ++ ys
drop-append_le zero xs ys h = refl
drop-append_le (suc n) [] ys h = absurd (omega arith)
drop-append_le (suc n) (x ∷ xs) ys h = drop-append_le n xs ys (omega arith)

-- `find` in a text with a NUL behind its bytes `xs`, fewer than 2 ^ 31, from a position inside or at the end, for a value
-- without NUL bytes, reads no byte outside the buffer and gives the first place, from that position,
-- at which the value stands in `xs`.
pub find-search :
    (t value : Text) (xs : List ℕ) (start : ℕ)
    → Ends t xs
    → NoZero (contents value)
    → start ≤ length xs
    → find t value start
      ≡ ok (Option.map (λ i. start + i) (search (contents value) (drop start xs)))
unfolding find
find-search t value xs start h nz inside =
    let rounds : length (drop start xs) ≡ t.size - start =
      omega (arith, length-drop start xs, h.sized) in
    rw (← rounds) (
      find_loop-search t (contents value) start (drop start xs) h.rest nz
        (ap (drop start) h.whole ∙ drop-append_le start xs (0 ∷ h.rest) inside)
        (omega (arith, length-drop start xs, h.small)))
