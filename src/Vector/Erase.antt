-- ===== src/Vector/Erase.antt =====
-- `removeOne` of Vector.hpp.
use learn_space.Base.{
  ℕ, zero, suc, ◌+◌, ◌≤◌, ◌<◌, ◌≡◌, refl, sym, Bool, true, false, List, [], ◌∷◌, ◌++◌, append_assoc,
  arith, if◌then◌else◌, ltb, length, ok, read, length-append, lt→ltb, le→leb, le→ltb, Bool-cases,
  ltb→lt, inl, inr, lt→leb,
}
use mathlib.Core.Path.{subst}
use learn_space.Vector.{Vector, remove_loop, remove_one}
use learn_space.Vector.Holds.{Holds, Makes, read-some}
use learn_space.Vector.Remove.{remove_at-Holds}

module _ {ℓ} {A : Type ℓ} (eq : A → A → Bool) where
  -- What `removeOne` keeps: with `only_one` all but the first element equal to `t`; without, the
  -- element that follows a removed one is kept unseen (`skip`).
  unfoldable pub erased : Bool → Bool → A → List A → List A
  erased only_one skip t [] = []
  erased only_one true t (x ∷ xs) = x ∷ erased only_one false t xs
  erased true false t (x ∷ xs) = if eq x t then xs else x ∷ erased true false t xs
  erased false false t (x ∷ xs) =
      let rest = erased false true t xs in
      let kept = erased false false t xs in if eq x t then rest else x ∷ kept

  loop_ends :
      (fuel : ℕ) (v : Vector A) (t : A) (only_one : Bool) (i : ℕ)
      → 0 < fuel
      → v.size ≤ i
      → remove_loop eq fuel v t only_one i ≡ ok v
  unfolding remove_loop
  loop_ends zero v t only_one i h le = elim h [ ]
  loop_ends (suc fuel) v t only_one i h le = rw (le→ltb i v.size le)

  -- After a removal the loop stops, or goes on past the element that moved up.
  go_on :
      (fuel : ℕ) {w : Vector A} (xs ys : List A) (t : A) (only_one : Bool) (i : ℕ)
      → Holds w (xs ++ ys)
      → i ≡ length xs
      → length ys < fuel
      → ((xs' ys' : List A)
          → Holds w (xs' ++ ys')
          → i + 1 ≡ length xs'
          → length ys' < fuel
          → Makes (remove_loop eq fuel w t only_one (i + 1)) (xs' ++ erased only_one false t ys'))
      → Makes
          (if only_one then ok w else remove_loop eq fuel w t only_one (i + 1))
          (xs ++ (if only_one then ys else erased false true t ys))
  unfolding erased
  go_on fuel {w} xs ys t true i h here enough again = (w, refl, h)
  go_on fuel {w} xs [] t false i h here enough again = (
    w,
    loop_ends fuel w t false (i + 1) enough (omega (arith, h.sized, length-append {A = A} xs [])),
    h,
  )
  go_on fuel {w} xs (z ∷ zs) t false i h here enough again =
      let assoc = append_assoc xs (z ∷ []) zs in
      subst (Makes (remove_loop eq fuel w t false (i + 1)))
        (append_assoc xs (z ∷ []) (erased false false t zs))
        (again (xs ++ z ∷ []) zs (subst (Holds w) (sym assoc) h)
          (omega (arith, length-append xs (z ∷ []))) (omega arith))

  remove_loop-Holds :
      (fuel : ℕ) {v : Vector A} (xs ys : List A) (t : A) (only_one : Bool) (i : ℕ)
      → Holds v (xs ++ ys)
      → i ≡ length xs
      → length ys < fuel
      → Makes (remove_loop eq fuel v t only_one i) (xs ++ erased only_one false t ys)
  unfolding remove_loop erased
  remove_loop-Holds fuel {v} xs [] t only_one i h here enough = (
    v,
    loop_ends fuel v t only_one i enough (omega (arith, h.sized, length-append {A = A} xs [])),
    h,
  )
  remove_loop-Holds zero xs (y ∷ ys) t only_one i h here enough = absurd (omega arith)
  remove_loop-Holds (suc fuel) {v} xs (y ∷ ys) t only_one i h here enough =
      let len = length-append xs (y ∷ ys) in
      let got : read v.element i ≡ ok y = rw h.cells (read-some xs ys y h.rest i here) in
      let going : ltb i v.size ≡ true = lt→ltb i v.size (omega (arith, h.sized)) in
      elim (Bool-cases (eq y t)) [
        | inr other ↦
            let assoc = append_assoc xs (y ∷ []) ys in
            rw (going, got, other, erased_other only_one other)
              (subst (Makes (remove_loop eq fuel v t only_one (i + 1)))
                (append_assoc xs (y ∷ []) (erased only_one false t ys))
                (remove_loop-Holds fuel {v = v} (xs ++ y ∷ []) ys t only_one (i + 1)
                  (subst (Holds v) (sym assoc) h) (omega (arith, length-append xs (y ∷ [])))
                  (omega arith)))
        | inl hit ↦
            let (w, removed, hw) = remove_at-Holds xs ys y i h here in
            rw (going, got, hit, removed, erased_hit only_one hit)
              (go_on fuel {w = w} xs ys t only_one i hw here (omega arith)
                (λ xs' ys'. remove_loop-Holds fuel {v = w} xs' ys' t only_one (i + 1)))
      ]
    where
      erased_other :
          (only_one : Bool)
          → eq y t ≡ false
          → erased only_one false t (y ∷ ys) ≡ y ∷ erased only_one false t ys
      erased_other true e = rw e
      erased_other false e = rw e

      erased_hit :
          (only_one : Bool)
          → eq y t ≡ true
          → erased only_one false t (y ∷ ys) ≡ (if only_one then ys else erased false true t ys)
      erased_hit true e = rw e
      erased_hit false e = rw e

  -- `removeOne` ends normally. At a `pos` inside the vector it searches the whole vector, from
  -- the first element on, whatever `pos` is: with `only_one` it removes the first element equal
  -- to `t`, without it removes equal elements but for those that directly follow a removed one.
  -- At a `pos` outside it changes nothing.
  pub remove_one-Holds :
      {v : Vector A} {xs : List A} (t : A) (pos : ℕ) (only_one : Bool)
      → Holds v xs
      → Makes
          (remove_one eq v t pos only_one)
          (if ltb pos (length xs) then erased only_one false t xs else xs)
  unfolding remove_one
  remove_one-Holds {v} {xs} t pos only_one h = elim (Bool-cases (ltb pos (length xs))) [
    | inl inside ↦
        rw (inside, lt→leb v.size pos (omega (arith, h.sized, ltb→lt pos (length xs) inside)))
          (remove_loop-Holds (v.size + 1) {v = v} [] xs t only_one 0 h refl
            (omega (arith, h.sized)))
    | inr outside ↦ rw (outside, le→leb v.size pos (ground (arith, h.sized))) (v, refl, h)
  ]
