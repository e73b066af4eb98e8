-- ===== src/Vector/Read.antt =====
-- The methods of Vector.hpp that read: `at`, `operator[]`, `first`, `last`, `contains`, `find`.
use learn_space.Base.{
  or_throw, ℕ, zero, suc, ◌+◌, ◌-◌, ◌≤◌, ◌<◌, ◌≡◌, refl, sym, ap, ◌∙◌, Bool, true, false, Option,
  none, some, List, [], ◌∷◌, ◌++◌, map, append_assoc, arith, if◌then◌else◌, leb, length, take, drop,
  get_elem?, ok, throws, read, length-append, length-drop, Bool-cases, leb→le, inl, inr,
  length-take, take-append-drop, drop_of_length-le, split_at, eq→==, ne→==, get_elem?-eq-none,
  no_except,
}
use learn_space.Base.Word.{sub_word}
use mathlib.Core.Path.{subst}
use learn_space.Vector.{Vector, at, subscript, last, contains_loop, contains, find_loop, find}
use learn_space.Vector.Holds.{Holds, read-some}

module _ {ℓ} {A : Type ℓ} where
  read-get :
      {v : Vector A} {xs : List A} (i : ℕ)
      → Holds v xs
      → i < length xs
      → read v.element i ≡ or_throw (get_elem? xs i)
  read-get {v} {xs} i h lt =
      let (x, whole, got) = split_at xs i lt in
      let here : i ≡ length (take i xs) = omega (arith, length-take i xs) in
      let cells : v.element ≡ map some (take i xs ++ x ∷ drop (suc i) xs) ++ h.rest =
        h.cells ∙ ap (λ l. map some l ++ h.rest) whole in
      rw (got, cells) (read-some (take i xs) (drop (suc i) xs) x h.rest i here)

  -- `at` returns the element at any index of the vector, and throws at any other.
  pub at-get :
      {v : Vector A} {xs : List A} (i : ℕ) → Holds v xs → at v i ≡ or_throw (get_elem? xs i)
  unfolding at
  at-get {v} {xs} i h = elim (Bool-cases (leb v.size i)) [
    | inl out ↦ rw (out, get_elem?-eq-none xs i (omega (arith, leb→le v.size i out, h.sized)))
    | inr inside ↦ rw inside (read-get i h (ground (arith, h.sized)))
  ]

  -- `operator[]` ends the program where `at` throws.
  pub subscript-get :
      {v : Vector A} {xs : List A} (i : ℕ)
      → Holds v xs
      → subscript v i ≡ no_except (or_throw (get_elem? xs i))
  unfolding subscript at
  subscript-get i h = ap no_except (at-get i h)

  pub last-get : {v : Vector A} (xs : List A) (x : A) → Holds v (xs ++ x ∷ []) → last v ≡ ok x
  unfolding last
  last-get {v} xs x h =
      let len = length-append xs (x ∷ []) in
      let here : sub_word v.size 1 ≡ length xs = omega (arith, h.sized, h.small, h.room) in
      rw (ne→== v.size 0 (omega (arith, h.sized)), h.cells)
        (read-some xs [] x h.rest (sub_word v.size 1) here)

  pub last-nil : {v : Vector A} → Holds v [] → last v ≡ throws
  unfolding last
  last-nil {v} h = rw (eq→== v.size 0 h.sized)

  module _ (eq : A → A → Bool) where
    unfoldable pub member : A → List A → Bool
    member t [] = false
    member t (x ∷ xs) = if eq t x then true else member t xs

    -- The first index, counted from `i`, of an element equal to `t`.
    unfoldable pub index_from : ℕ → A → List A → Option ℕ
    index_from i t [] = none
    index_from i t (x ∷ xs) = if eq x t then some i else index_from (i + 1) t xs

    contains_loop-member :
        (n : ℕ) {v : Vector A} (xs ys : List A) (t : A) (i : ℕ)
        → Holds v (xs ++ ys)
        → i ≡ length xs
        → n ≡ length ys
        → contains_loop eq n v t i ≡ ok (member t ys)
    unfolding contains_loop member
    contains_loop-member zero xs [] t i h here e = refl
    contains_loop-member zero xs (y ∷ ys) t i h here e = absurd (omega arith)
    contains_loop-member (suc n) xs [] t i h here e = absurd (omega arith)
    contains_loop-member (suc n) {v} xs (y ∷ ys) t i h here e =
        let got : read v.element i ≡ ok y = rw h.cells (read-some xs ys y h.rest i here) in
        let h' = subst (Holds v) (sym (append_assoc xs (y ∷ []) ys)) h in
        let ih =
          contains_loop-member n {v = v} (xs ++ y ∷ []) ys t (i + 1) h'
            (omega (arith, length-append xs (y ∷ []))) (omega arith) in
        ground (arith, got, ih)

    find_loop-index :
        (n : ℕ) {v : Vector A} (xs ys : List A) (t : A) (i : ℕ)
        → Holds v (xs ++ ys)
        → i ≡ length xs
        → n ≡ length ys
        → find_loop eq n v t i ≡ ok (index_from i t ys)
    unfolding find_loop index_from
    find_loop-index zero xs [] t i h here e = refl
    find_loop-index zero xs (y ∷ ys) t i h here e = absurd (omega arith)
    find_loop-index (suc n) xs [] t i h here e = absurd (omega arith)
    find_loop-index (suc n) {v} xs (y ∷ ys) t i h here e =
        let got : read v.element i ≡ ok y = rw h.cells (read-some xs ys y h.rest i here) in
        let h' = subst (Holds v) (sym (append_assoc xs (y ∷ []) ys)) h in
        let ih =
          find_loop-index n {v = v} (xs ++ y ∷ []) ys t (i + 1) h'
            (omega (arith, length-append xs (y ∷ []))) (omega arith) in
        ground (arith, got, ih)

    -- `contains` tells whether an element equal to `t` stands at `pos` or behind it, and `find`
    -- gives the first index of one; neither throws, at any `pos`.
    pub search_lem :
        {v : Vector A} {xs : List A} (t : A) (pos : ℕ)
        → Holds v xs
        → (contains eq v t pos ≡ ok (member t (drop pos xs)))
          × (find eq v t pos ≡ ok (index_from pos t (drop pos xs)))
    unfolding contains find member index_from
    search_lem {v} {xs} t pos h = elim (Bool-cases (leb pos (length xs))) [
      | inl inside ↦
          let le = leb→le pos (length xs) inside in
          let here : pos ≡ length (take pos xs) = omega (arith, length-take pos xs) in
          let left : v.size - pos ≡ length (drop pos xs) =
            omega (arith, length-drop pos xs, h.sized) in
          let h' = subst (Holds v) (sym (take-append-drop pos xs)) h in
          (
            contains_loop-member (v.size - pos) (take pos xs) (drop pos xs) t pos h' here left,
            find_loop-index (v.size - pos) (take pos xs) (drop pos xs) t pos h' here left,
          )
      | inr outside ↦
          let far : length xs ≤ pos = ground arith in
          let stop : v.size - pos ≡ 0 = omega (arith, h.sized) in
          rw (stop, drop_of_length-le pos xs far) (refl, refl)
    ]
