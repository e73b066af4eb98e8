-- ===== src/KvStore/Text/Split.antt =====
-- `split` cuts a text at the places of the separator.
use mathlib.Core.Path.{subst}
use mathlib.Core.List.{append_assoc}
use mathlib.Core.Option
use learn_space.Base.{
  ℕ, zero, suc, ◌+◌, ◌-◌, ◌≤◌, ◌<◌, ◌≡◌, refl, sym, ap, ◌∙◌, true, Option, none, some, List, [],
  ◌∷◌, ◌++◌, length, length-drop, length-append, take, drop, drop-drop, take-append-drop, All, ok,
  diverges, ◌==◌, ==_iff, Option-cases, Bool-cases, inl, inr, arith, Outcome,
}
use learn_space.KvStore.Text.{
  int_limit, Text, contents, piece, find, find_loop, same_loop, split_loop, split,
}
use learn_space.KvStore.Text.Find.{starts, search, NoZero, Ends, drop-append_le, find_loop-search}

-- The pieces, each with the separator behind it.
abbrev pub ended : List ℕ → List (List ℕ) → List ℕ
ended v [] = []
ended v (p ∷ ps) = p ++ (v ++ ended v ps)

starts-split : (v xs : List ℕ) → starts v xs ≡ true → xs ≡ v ++ drop (length v) xs
starts-split [] xs h = refl
starts-split (b ∷ bs) [] h = absurd (cc h)
starts-split (b ∷ bs) (x ∷ xs) h = elim (Bool-cases (x == b)) [
  | inl same ↦
      let e : x ≡ b = (==_iff x b).0 same in
      let rest = starts-split bs xs (rw same at h) in cc (e, rest)
  | inr other ↦ absurd (cc (rw other at h))
]

starts-append : (v xs ys : List ℕ) → starts v xs ≡ true → starts v (xs ++ ys) ≡ true
starts-append [] xs ys h = refl
starts-append (b ∷ bs) [] ys h = absurd (cc h)
starts-append (b ∷ bs) (x ∷ xs) ys h = elim (Bool-cases (x == b)) [
  | inl same ↦ rw same (starts-append bs xs ys (rw same at h))
  | inr other ↦ absurd (cc (rw other at h))
]

not_zero : (o : Option ℕ) → Option.map suc o ≡ some 0 → ⊥
not_zero none e = cc e
not_zero (some i) e = absurd (ground (arith, e))

one_less : (o : Option ℕ) (i : ℕ) → Option.map suc o ≡ some (suc i) → o ≡ some i
one_less none i e = absurd (cc e)
one_less (some j) i e = cc e

first_only : (i : ℕ) → some 0 ≡ some (suc i) → ⊥
first_only i e = ground (arith, e)

-- Where `search` finds something, the list is cut there.
pub search-split :
    (v xs : List ℕ) (i : ℕ)
    → search v xs ≡ some i
    → (xs ≡ take i xs ++ (v ++ drop (i + length v) xs))
      × (i ≤ length xs)
      × (i + length v ≤ length xs)
search-split v [] i h = absurd (cc h)
search-split v (x ∷ xs) zero h = elim (Bool-cases (starts v (x ∷ xs))) [
  | inl here ↦
      let z : 0 + length v ≡ length v = omega arith in
      let cut = starts-split v (x ∷ xs) here in
      (
        rw z cut,
        omega arith,
        omega (arith, ap length cut, length-append v (drop (length v) (x ∷ xs))),
      )
  | inr other ↦ absurd (not_zero (search v xs) (rw other at h))
]
search-split v (x ∷ xs) (suc i) h = elim (Bool-cases (starts v (x ∷ xs))) [
  | inl here ↦ absurd (first_only i (rw here at h))
  | inr other ↦
      let (cut, inside, fits) = search-split v xs i (one_less (search v xs) i (rw other at h)) in
      let z : suc i + length v ≡ suc (i + length v) = omega arith in
      (rw z (ap (◌∷◌ x) cut), omega arith, omega arith)
]

-- In front of the first place there is none.
pub search-take : (v xs : List ℕ) (i : ℕ) → search v xs ≡ some i → search v (take i xs) ≡ none
search-take v [] i h = absurd (cc h)
search-take v (x ∷ xs) zero h = refl
search-take v (x ∷ xs) (suc i) h = elim (Bool-cases (starts v (x ∷ xs))) [
  | inl here ↦ absurd (first_only i (rw here at h))
  | inr other ↦
      let later = search-take v xs i (one_less (search v xs) i (rw other at h)) in
      elim (Bool-cases (starts v (x ∷ take i xs))) [
        | inl early ↦
            let back : (x ∷ take i xs) ++ drop i xs ≡ x ∷ xs = ap (◌∷◌ x) (take-append-drop i xs) in
            let again = starts-append v (x ∷ take i xs) (drop i xs) early in
            absurd (cc (subst (λ l. starts v l ≡ true) back again, other))
        | inr late ↦ rw (late, later) refl
      ]
]

take-append_le : (n : ℕ) (xs ys : List ℕ) → n ≤ length xs → take n (xs ++ ys) ≡ take n xs
take-append_le zero xs ys h = refl
take-append_le (suc n) [] ys h = absurd (omega arith)
take-append_le (suc n) (x ∷ xs) ys h = ap (◌∷◌ x) (take-append_le n xs ys (omega arith))

module _ (t value : Text) where
  -- What the separator is: some bytes, none of them NUL.
  pub record Separates : Type 0 where
    pub sized : value.size ≡ length (contents value)
    pub some_byte : 0 < length (contents value)
    pub clean : NoZero (contents value)

  abbrev pub Cut : Outcome (List (List ℕ)) → List ℕ → Type 0
  Cut m xs =
      (pieces : List (List ℕ)) × (last : List ℕ) × (m ≡ ok pieces)
      × (xs ≡ ended (contents value) pieces ++ last)
      × All (λ p. search (contents value) p ≡ none) pieces
      × (search (contents value) last ≡ none)

  split_step :
      (fuel pos i n : ℕ) (pieces : List (List ℕ))
      → t.size - pos ≡ n
      → find_loop t (contents value) n pos ≡ ok (some (pos + i))
      → split_loop t value fuel (pos + i + value.size) ≡ ok pieces
      → split_loop t value (suc fuel) pos ≡ ok (piece t pos (pos + i - pos) ∷ pieces)
  unfolding split_loop find
  split_step fuel pos i n pieces rounds found run = rw (rounds, found, run) refl

  split_loop-Cut :
      (fuel pos : ℕ) (xs rest : List ℕ)
      → Separates
      → drop pos t.buffer ≡ xs ++ 0 ∷ rest
      → pos + length xs ≡ t.size
      → t.size < int_limit
      → length xs < fuel
      → Cut (split_loop t value fuel pos) xs
  unfolding split_loop find
  split_loop-Cut zero pos xs rest s e n small few = absurd (omega arith)
  split_loop-Cut (suc fuel) pos xs rest s e n small few =
      let v = contents value in
      let rounds : t.size - pos ≡ length xs = omega (arith, n) in
      let found = find_loop-search t v pos xs rest s.clean e (omega (arith, n, small)) in
      elim (Option-cases (search v xs)) [
        | inl out ↦ ([], xs, rw (rounds, found, out) refl, refl, tt, out)
        | inr (i, here) ↦
            let (cut, inside, fits) = search-split v xs i here in
            let index : pos + i + value.size ≡ pos + (i + length v) = omega (arith, s.sized) in
            let left = length-drop (i + length v) xs in
            let after : drop (pos + i + value.size) t.buffer ≡ drop (i + length v) xs ++ 0 ∷ rest =
              ap (λ k. drop k t.buffer) index
              ∙ sym (drop-drop (i + length v) pos t.buffer)
              ∙ ap (drop (i + length v)) e
              ∙ drop-append_le (i + length v) xs (0 ∷ rest) fits in
            let (pieces, last, run, whole, clean, none_left) =
              split_loop-Cut fuel (pos + i + value.size) (drop (i + length v) xs) rest s after
                (omega (arith, n, left, s.sized)) small (omega (arith, left, s.some_byte)) in
            let first : piece t pos (pos + i - pos) ≡ take i xs =
              ap (λ k. take k (drop pos t.buffer))
                (let back : pos + i - pos ≡ i = omega arith in back)
              ∙ ap (take i) e
              ∙ take-append_le i xs (0 ∷ rest) inside in
            (
              take i xs ∷ pieces,
              last,
              split_step fuel pos i (length xs) pieces rounds
                    (found ∙ ap (λ o. ok (Option.map (λ k. pos + k) o)) here) run
                  ∙ ap (λ p. ok (p ∷ pieces)) first,
              cut ∙ ap (λ l. take i xs ++ (v ++ l)) whole ∙ simp append_assoc,
              (search-take v xs i here, clean),
              none_left,
            )
      ]

  -- `split` of a text with a NUL behind its bytes `xs`, fewer than 2 ^ 31, by a separator of some bytes, none of them NUL,
  -- returns: `xs` is the pieces, each with the separator behind it, and then a last part, which is
  -- dropped; the separator stands in no piece and not in the last part.
  pub split-Cut : (xs : List ℕ) → Ends t xs → Separates → Cut (split t value) xs
  unfolding split
  split-Cut xs h s =
      split_loop-Cut (suc t.size) 0 xs h.rest s h.whole (omega (arith, h.sized))
        (omega (arith, h.sized, h.small)) (omega (arith, h.sized))

  -- By an empty separator `split` of a text that has a byte goes on without end, whatever the rounds.
  pub split_empty_diverges :
      (fuel : ℕ)
      → contents value ≡ []
      → value.size ≡ 0
      → 0 < t.size
      → split_loop t value fuel 0 ≡ diverges
  unfolding split_loop find find_loop same_loop
  split_empty_diverges zero none_ size some_byte = refl
  split_empty_diverges (suc fuel) none_ size some_byte =
      let rounds : t.size - 0 ≡ suc (t.size - 1) = omega arith in
      rw (rounds, none_, size, split_empty_diverges fuel none_ size some_byte) refl
