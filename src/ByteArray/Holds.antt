-- ===== src/ByteArray/Holds.antt =====
-- What an array of CMByteArray.cpp stands for, beside the arrays that share its buffer.
use mathlib.Core.Option.{some-injective}
use learn_space.Base.{
  ℕ, ◌+◌, ◌-◌, ◌≤◌, ◌<◌, ◌≡◌, ◌≢◌, refl, sym, ap, ◌∙◌, true, none, some, List, [], ◌∷◌, ◌++◌, arith,
  length, drop, replicate, if◌then◌else◌, ◌==◌, length-append, length-replicate, length-drop,
  take-append, eq→==, ne→==, le→leb, Bool-cases, inl, inr, ok,
}
use learn_space.ByteArray.{
  Store, ByteArray, update, release, contents, unique, bytes_of, reset_buffer,
}

-- The array holds `xs`, in a buffer as long as its capacity, which is not freed.
pub record Holds (s : Store) (b : ByteArray) (xs : List ℕ) : Type 0 where
  pub at : ℕ
  pub rest : List ℕ
  pub pointed : b.pointer ≡ some at
  pub stored : s.buffer at ≡ some (xs ++ rest)
  pub sized : b.size ≡ length xs
  pub room : b.capacity ≡ length xs + length rest
  pub roomy : 1 ≤ b.capacity
  pub used : 1 ≤ s.uses at
  pub below : at < s.fresh

-- Two arrays are not the only ones to share a buffer, unless the store counts both.
abbrev pub Apart : Store → ByteArray → ByteArray → Type 0
Apart s b c = (p : ℕ) → b.pointer ≡ some p → c.pointer ≡ some p → 2 ≤ s.uses p

-- Every other array holds what it held.
abbrev pub Spares : Store → ByteArray → Store → Type 0
Spares s b s' = (c : ByteArray) (ys : List ℕ) → Holds s c ys → Apart s b c → Holds s' c ys

-- The store after `resetBuffer` of an array at `p` to a buffer `buf`.
abbrev pub after_reset : Store → ℕ → List ℕ → Store
after_reset s p buf = record s {
  buffer =
      if s.uses p == 1
      then update (update s.buffer s.fresh (some buf)) p none
      else update s.buffer s.fresh (some buf);
  uses = update (update s.uses s.fresh 1) p (s.uses p - 1);
  fresh = s.fresh + 1;
}

reset_stored :
    (s : Store) (p q : ℕ) (buf : List ℕ)
    → q ≢ s.fresh
    → (p ≡ q → 2 ≤ s.uses p)
    → (after_reset s p buf).buffer q ≡ s.buffer q
reset_stored s p q buf old shared = elim (Bool-cases (s.uses p == 1)) [
  | inl last ↦
      let ne : p ≢ q = (λ e. ground (arith, last, shared e)) in
      rw (last, ne→== p q ne, ne→== s.fresh q (λ e. old (sym e))) refl
  | inr more ↦ rw (more, ne→== s.fresh q (λ e. old (sym e))) refl
]

reset_new :
    (s : Store) (p : ℕ) (buf : List ℕ)
    → p ≢ s.fresh
    → (after_reset s p buf).buffer s.fresh ≡ some buf
reset_new s p buf old = elim (Bool-cases (s.uses p == 1)) [
  | inl last ↦ rw (last, ne→== p s.fresh old, eq→== s.fresh s.fresh refl) refl
  | inr more ↦ rw (more, eq→== s.fresh s.fresh refl) refl
]

reset_used :
    (s : Store) (p q : ℕ) (buf : List ℕ)
    → q ≢ s.fresh
    → (p ≡ q → 2 ≤ s.uses p)
    → 1 ≤ s.uses q
    → 1 ≤ (after_reset s p buf).uses q
reset_used s p q buf old shared used = elim (Bool-cases (p == q)) [
  | inl same ↦ let e : p ≡ q = ground (arith, same) in rw same (omega (arith, shared e))
  | inr other ↦ rw (other, ne→== s.fresh q (λ e. old (sym e))) used
]

reset_count :
    (s : Store) (p : ℕ) (buf : List ℕ) → p ≢ s.fresh → (after_reset s p buf).uses s.fresh ≡ 1
reset_count s p buf old = rw (ne→== p s.fresh old, eq→== s.fresh s.fresh refl) refl

-- The bytes of an array.
pub bytes_of-Holds : {s : Store} {b : ByteArray} (xs : List ℕ) → Holds s b xs → bytes_of s b ≡ ok xs
unfolding bytes_of
bytes_of-Holds {s} {b} [] h = rw (eq→== b.size 0 h.sized) refl
bytes_of-Holds {s} {b} (x ∷ xs) h =
    let all = (x ∷ xs) ++ h.rest in
    rw
      (
        ne→== b.size 0 (λ e. omega (arith, h.sized)),
        h.pointed,
        contents,
        h.stored,
        le→leb (0 + b.size) (length all) (omega (arith, h.sized, length-append (x ∷ xs) h.rest)),
        take-append b.size (x ∷ xs) h.rest h.sized,
      )
      refl

pub reset-Spares :
    {s : Store} (b : ByteArray) {p : ℕ} (buf : List ℕ)
    → b.pointer ≡ some p
    → Spares s b (after_reset s p buf)
reset-Spares {s} b {p} buf here c ys h apart =
    let q = h.at in
    let shared : p ≡ q → 2 ≤ s.uses p = (λ e. apart p here (h.pointed ∙ ap some (sym e))) in
    let old : q ≢ s.fresh = (λ e. omega (arith, h.below)) in
    record {
      at = q;
      rest = h.rest;
      pointed = h.pointed;
      stored = reset_stored s p q buf old shared ∙ h.stored;
      sized = h.sized;
      room = h.room;
      roomy = h.roomy;
      used = reset_used s p q buf old shared h.used;
      below = omega (arith, h.below);
    }

-- `resetBuffer` to a capacity with room for the bytes: the array holds them, alone.
pub reset_buffer-Holds :
    {s : Store} {b : ByteArray} {xs : List ℕ} (capacity : ℕ) (h : Holds s b xs)
    → length xs ≤ capacity
    → 1 ≤ capacity
    → (s' : Store) × (b' : ByteArray) × (reset_buffer s (record b { capacity = capacity })
        ≡ ok (s', b'))
      × Holds s' b' xs
      × (b'.capacity ≡ capacity)
      × (unique s' b'.pointer ≡ true)
      × (b'.pointer ≡ some s.fresh)
      × Spares s b s'
unfolding reset_buffer release bytes_of
reset_buffer-Holds {s} {b} {xs} capacity h fits some_room =
    let p = h.at in
    let zeros = replicate capacity 0 in
    let buf = xs ++ drop (0 + length xs) zeros in
    let alone : p ≢ s.fresh = (λ e. omega (arith, h.below)) in
    let loaded : bytes_of s (record b { capacity = capacity }) ≡ ok xs = bytes_of-Holds xs h in
    (
      after_reset s p buf,
      record b { pointer = some s.fresh; capacity = capacity },
      rw
          (
            reset_buffer,
            ne→== capacity 0 (λ e. omega (arith, some_room)),
            loaded,
            le→leb (0 + length xs) (length zeros)
                (omega (arith, length-replicate {A = ℕ} capacity 0)),
            h.pointed,
          )
          (rw (ne→== s.fresh p (λ e. alone (sym e))) refl),
      record {
        at = s.fresh;
        rest = drop (0 + length xs) zeros;
        pointed = refl;
        stored = reset_new s p buf alone;
        sized = h.sized;
        room =
            omega (arith, length-drop (0 + length xs) zeros, length-replicate {A = ℕ} capacity 0);
        roomy = some_room;
        used = omega (arith, reset_count s p buf alone);
        below = omega arith;
      },
      refl,
      eq→== ((after_reset s p buf).uses s.fresh) 1 (reset_count s p buf alone),
      refl,
      reset-Spares b buf h.pointed,
    )

-- What spares the others after a reset spares them from before it.
pub Spares-trans :
    {s s1 s' : Store} (b b1 : ByteArray)
    → Spares s b s1
    → b1.pointer ≡ some s.fresh
    → Spares s1 b1 s'
    → Spares s b s'
Spares-trans {s} b b1 before here after c ys k apart = after c ys (before c ys k apart) (λ p e f.
    absurd (
      omega (
        arith,
        k.below,
        some-injective _ _ (sym here ∙ e),
        some-injective _ _ (sym k.pointed ∙ f),
      )))
