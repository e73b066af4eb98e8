-- ===== src/Stack/Holds.antt =====
-- What a stack of Stack.hpp stands for: its elements, the top one last.
use learn_space.Base.{
  ◌-◌, ◌^◌, ◌≤◌, ◌<◌, ◌≡◌, refl, List, [], ◌∷◌, ◌++◌, append-nil, arith, ◌==◌, length, ok, throws,
  length-append, ◌>>=◌, eq→==, ne→==,
}
use learn_space.Base.Word.{add_word, sub_word}
use mathlib.Core.Path.{subst}
use learn_space.Vector.Holds.{Holds}
use learn_space.Vector.Growth.{construct-Holds, append-Holds}
use learn_space.Vector.Remove.{remove_at-Holds}
use learn_space.Vector.Read.{last-get, last-nil}
use learn_space.Stack.{Stack, npos, construct, is_empty, size, top, push, pop}

-- The stack holds `xs`, no more than an `int` can count.
pub record Stacks {ℓ} {A : Type ℓ} (s : Stack A) (xs : List A) : Type ℓ where
  pub holds : Holds s.base xs
  pub topped : s.top_index ≡ sub_word (length xs) 1
  pub few : length xs ≤ 2 ^ 31

module _ {ℓ} {A : Type ℓ} where
  pub construct-Stacks : (s : Stack A) × (construct {A = A} ≡ ok s) × Stacks s []
  unfolding construct
  construct-Stacks =
      let (v, made, h) = construct-Holds {A = A} 10 (omega arith) in
      (
        record { base = v; top_index = npos },
        rw made,
        record { holds = h; topped = refl; few = omega arith },
      )

  -- `push` puts an element on top of a stack that an `int` can count.
  pub push-Stacks :
      {s : Stack A} {xs : List A} (t : A)
      → Stacks s xs
      → length xs < 2 ^ 31
      → (s' : Stack A) × (push s t ≡ ok s') × Stacks s' (xs ++ t ∷ [])
  unfolding push
  push-Stacks {s} {xs} t h few =
      let (v, made, hv) = append-Holds t h.holds (omega arith) in
      (
        record { base = v; top_index = add_word s.top_index 1 },
        rw (made, ne→== s.top_index (2 ^ 31 - 1) (omega (arith, h.topped))),
        record {
          holds = hv;
          topped = omega (arith, h.topped, length-append xs (t ∷ []));
          few = omega (arith, length-append xs (t ∷ []));
        },
      )

  -- `pop` returns the top element and leaves the others.
  pub pop-Stacks :
      {s : Stack A} (xs : List A) (x : A)
      → Stacks s (xs ++ x ∷ [])
      → (s' : Stack A) × (pop s ≡ ok (x, s')) × Stacks s' xs
  unfolding pop
  pop-Stacks {s} xs x h =
      let len = length-append xs (x ∷ []) in
      let here : s.top_index ≡ length xs = omega (arith, h.topped, h.few) in
      let (v, removed, hv) = remove_at-Holds xs [] x s.top_index h.holds here in
      (
        record { base = v; top_index = sub_word s.top_index 1 },
        rw (last-get xs x h.holds, removed),
        record {
          holds = subst (Holds v) (append-nil xs) hv;
          topped = omega (arith, here, h.few);
          few = omega (arith, h.few);
        },
      )

  -- `pop` and `top` throw on an empty stack.
  pub empty_throws : {s : Stack A} → Stacks s [] → (pop s ≡ throws) × (top s ≡ throws)
  unfolding pop top
  empty_throws h = (rw (last-nil h.holds), last-nil h.holds)

  -- `isEmpty` tells whether there is an element; `size` is one less than their number, and
  -- `2 ^ 32 - 1` on an empty stack.
  pub size-Stacks :
      {s : Stack A} {xs : List A}
      → Stacks s xs
      → (is_empty s ≡ (length xs == 0)) × (size s ≡ sub_word (length xs) 1)
  unfolding is_empty size
  size-Stacks {s} {xs} h = (empty xs h.topped h.few, h.topped)
    where
      empty :
          (ys : List A)
          → s.top_index ≡ sub_word (length ys) 1
          → length ys ≤ 2 ^ 31
          → (s.top_index == npos) ≡ (length ys == 0)
      empty [] e k = rw (eq→== s.top_index npos e)
      empty (y ∷ ys) e k =
          rw (ne→== s.top_index npos (omega arith), ne→== (length (y ∷ ys)) 0 (omega arith))

  -- What is pushed is popped, and the stack holds what it held.
  pub pop-push :
      {s : Stack A} {xs : List A} (t : A)
      → Stacks s xs
      → length xs < 2 ^ 31
      → (s' : Stack A) × ((push s t >>= pop) ≡ ok (t, s')) × Stacks s' xs
  pop-push {s} {xs} t h few =
      let (s1, pushed, h1) = push-Stacks t h few in
      let (s2, popped, h2) = pop-Stacks xs t h1 in (s2, rw (pushed, popped), h2)
