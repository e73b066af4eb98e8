-- ===== src/Vector/Remove.antt =====
-- `removeAt`, `removeFirst` and `removeLast` of Vector.hpp.
use learn_space.Base.{
  ℕ, ◌+◌, ◌≤◌, ◌<◌, ◌≡◌, refl, sym, ap, ◌∙◌, some, List, [], ◌∷◌, ◌++◌, map, append-nil,
  append_assoc, arith, if◌then◌else◌, ltb, length, take, drop, ok, Cells, memmove, length-append,
  length-map, length-drop, take-append, drop-append, le→leb, le→ltb, Bool-cases, ltb→lt, inl, inr,
  length-take, take-append-drop, take_of_length-le, drop_of_length-le, drop-drop,
}
use learn_space.Base.Word.{word, add_word, sub_word}
use mathlib.Core.Path.{subst}
use mathlib.Core.List.{map-append}
use learn_space.Vector.{Vector, remove_range, remove_at, remove_first, remove_last}
use learn_space.Vector.Holds.{Holds, Makes, length-some}

module _ {ℓ} {A : Type ℓ} where
  joined :
      (xs zs : List A) (rest : Cells A)
      → map some xs ++ (map some zs ++ rest) ≡ map some (xs ++ zs) ++ rest
  joined [] zs rest = refl
  joined (x ∷ xs) zs rest = ap (◌∷◌ (some x)) (joined xs zs rest)

  memmove-some :
      (xs ys zs : List A) (rest : Cells A) (pos range count : ℕ)
      → pos ≡ length xs
      → range ≡ length xs + length ys
      → count ≡ length zs
      → memmove (map some (xs ++ (ys ++ zs)) ++ rest) pos range count
        ≡ ok (map some (xs ++ zs) ++ drop (pos + count) (map some (xs ++ (ys ++ zs)) ++ rest))
  memmove-some xs ys zs rest pos range count hp hr hc =
      let p = map some (xs ++ (ys ++ zs)) ++ rest in
      let outer = length-append xs (ys ++ zs) in
      let inner = length-append ys zs in
      let len = length-some (xs ++ (ys ++ zs)) rest in
      let front : p ≡ map some xs ++ (map some ys ++ (map some zs ++ rest)) =
        simp (map-append, append_assoc) in
      let back : p ≡ (map some xs ++ map some ys) ++ (map some zs ++ rest) =
        simp (map-append, append_assoc) in
      let kept : take pos p ≡ map some xs =
        rw front (take-append pos (map some xs) _ (omega (arith, length-map some xs))) in
      let moved : drop range p ≡ map some zs ++ rest = rw back (
        drop-append range (map some xs ++ map some ys) _ (
          omega (
            arith,
            length-append (map some xs) (map some ys),
            length-map some xs,
            length-map some ys,
          ))) in
      rw (
        le→leb (pos + count) (length p) (omega arith),
        le→leb (range + count) (length p) (omega arith),
        kept,
        moved,
        take-append count (map some zs) rest (omega (arith, length-map some zs)),
        joined xs zs (drop (pos + count) p),
      )

  -- Dropping `len` elements in the middle of what a vector holds.
  remove_middle :
      {v : Vector A} (xs ys zs : List A)
      → Holds v (xs ++ (ys ++ zs))
      → (pos len : ℕ) → pos ≡ length xs
      → (if ltb v.size (add_word len pos) then sub_word v.size pos else len) ≡ length ys
      → Makes (remove_range v pos len) (xs ++ zs)
  unfolding remove_range
  remove_middle {v} xs ys zs h pos len hp hn =
      let outer = length-append xs (ys ++ zs) in
      let inner = length-append ys zs in
      let sized = h.sized in
      let range : add_word pos (length ys) ≡ length xs + length ys =
        omega (arith, h.small, h.room) in
      let count : sub_word v.size (add_word pos (length ys)) ≡ length zs =
        omega (arith, h.small, h.room) in
      let junk = drop (pos + length zs) (map some (xs ++ (ys ++ zs)) ++ h.rest) in
      let len-junk : length junk ≡ length ys + length h.rest = omega (
        arith,
        length-drop (pos + length zs) (map some (xs ++ (ys ++ zs)) ++ h.rest),
        length-some (xs ++ (ys ++ zs)) h.rest,
      ) in
      (
        record v { element = map some (xs ++ zs) ++ junk; size = sub_word v.size (length ys) },
        rw (
          le→ltb v.size pos (omega arith),
          hn,
          count,
          h.cells,
          memmove-some xs ys zs h.rest pos (add_word pos (length ys)) (length zs) hp range refl,
        ),
        record {
          rest = junk;
          cells = refl;
          sized = omega (arith, length-append xs zs, h.small, h.room);
          room = omega (arith, length-append xs zs, h.room);
          small = h.small;
          step_pos = h.step_pos;
          step_small = h.step_small;
        },
      )

  -- The length that `removeAt` goes on with.
  abbrev clamped : Vector A → ℕ → ℕ → ℕ
  clamped v pos len = if ltb v.size (add_word len pos) then sub_word v.size pos else len

  clamped_lem :
      {v : Vector A} {xs : List A} (pos len : ℕ)
      → Holds v xs
      → pos + len < word
      → pos ≤ length xs
      → (clamped v pos len ≤ length (drop pos xs))
        × (drop (clamped v pos len) (drop pos xs) ≡ drop (pos + len) xs)
  clamped_lem {v} {xs} pos len h small inside =
      let left = length-drop pos xs in
      let sized = h.sized in
      elim (Bool-cases (ltb v.size (add_word len pos))) [
        | inl over ↦
            let all : sub_word v.size pos ≡ length (drop pos xs) = omega (arith, h.small, h.room) in
            rw over (
              omega arith,
              drop_of_length-le (sub_word v.size pos) (drop pos xs) (omega arith)
                  ∙ sym (
                      drop_of_length-le (pos + len) xs
                        (omega (arith, ltb→lt v.size (add_word len pos) over))),
            )
        | inr fits ↦
            let short : len + pos ≤ length xs = ground arith in
            rw fits (omega arith, drop-drop len pos xs)
      ]

  -- `removeAt(pos, len)` drops the elements from `pos` on, `len` of them or as many as there are,
  -- and keeps the others in order, at any `pos`, if `pos + len` does not wrap.
  pub remove_range-Holds :
      {v : Vector A} {xs : List A} (pos len : ℕ)
      → Holds v xs
      → pos + len < word
      → Makes (remove_range v pos len) (take pos xs ++ drop (pos + len) xs)
  unfolding remove_range
  remove_range-Holds {v} {xs} pos len h small = elim (Bool-cases (ltb v.size pos)) [
    | inl past ↦
        let far : length xs ≤ pos = omega (arith, ltb→lt v.size pos past, h.sized) in
        let same : take pos xs ++ drop (pos + len) xs ≡ xs = rw (
          take_of_length-le pos xs far,
          drop_of_length-le (pos + len) xs (omega arith),
          append-nil,
        ) in
        (v, rw past, subst (Holds v) (sym same) h)
    | inr inside ↦
        let ys = drop pos xs in
        let le : pos ≤ length xs = ground (arith, h.sized) in
        let (bound, tail) = clamped_lem pos len h small le in
        let n = clamped v pos len in
        let whole : take pos xs ++ (take n ys ++ drop n ys) ≡ xs =
          ap (λ l. take pos xs ++ l) (take-append-drop n ys) ∙ take-append-drop pos xs in
        subst (λ l. Makes (remove_range v pos len) (take pos xs ++ l)) tail
          (remove_middle (take pos xs) (take n ys) (drop n ys) (subst (Holds v) (sym whole) h) pos
            len (omega (arith, length-take pos xs)) (omega (arith, length-take n ys, bound)))
  ]

  pub remove_at-Holds :
      {v : Vector A} (xs ys : List A) (x : A) (i : ℕ)
      → Holds v (xs ++ x ∷ ys)
      → i ≡ length xs
      → Makes (remove_at v i) (xs ++ ys)
  unfolding remove_at
  remove_at-Holds {v} xs ys x i h here =
      let len = length-append xs (x ∷ ys) in
      remove_middle xs (x ∷ []) ys h i 1 here
        (rw (le→ltb v.size (add_word 1 i) (omega (arith, h.sized, h.small, h.room))))

  -- `removeFirst` drops the first element.
  pub remove_first-Holds :
      {v : Vector A} (x : A) (xs : List A) → Holds v (x ∷ xs) → Makes (remove_first v) xs
  unfolding remove_first
  remove_first-Holds x xs h = remove_at-Holds [] xs x 0 h refl

  -- `removeLast` drops the last element.
  pub remove_last-Holds :
      {v : Vector A} (xs : List A) (x : A) → Holds v (xs ++ x ∷ []) → Makes (remove_last v) xs
  unfolding remove_last
  remove_last-Holds {v} xs x h =
      let len = length-append xs (x ∷ []) in
      let last : sub_word v.size 1 ≡ length xs = omega (arith, h.sized, h.small, h.room) in
      subst (Makes (remove_at v (sub_word v.size 1))) (append-nil xs)
        (remove_at-Holds xs [] x (sub_word v.size 1) h last)
