-- ===== src/LinkedList/Find.antt =====
-- `findNode` and `at` of List.hpp find the element at a position, from either end.
use mathlib.Core.Path.{subst}
use native.Mathlib.Nat.{zero-add}
use learn_space.Base.{
  ℕ, zero, suc, ◌+◌, ◌/◌, ◌<◌, ◌≤◌, ◌≡◌, ◌≢◌, refl, sym, ap, ◌∙◌, true, false, List, [], ◌∷◌, ◌++◌,
  length, length-append, length-take, take, drop, split_at, get_elem?, get_elem?-eq-none,
  get_elem?-lt, get_elem?-none_lem, get_elem?-map, or_throw, some, Option-cases, All, All-right, ok,
  arith, eq→==, ne→==, leb, ltb, lt→leb, le→leb, Ptr, Bool-cases, inl, inr,
}
use learn_space.Base.Word.{word, add_word, sub_word}
use learn_space.Nodes.Links.{Links, Links-after}
use learn_space.Nodes.Linked.{end_of_middle, Linked, Stores, size-Stores}
use learn_space.LinkedList.{LinkedList, find_loop, find_node, at}

module _ {ℓ} {T : Type ℓ} (c : LinkedList T) (null : c.live 0 ≡ false) where
  -- A node is not the null pointer.
  pub nonzero : (p : Ptr) → c.live p ≡ true → p ≢ 0
  nonzero p live e = cc (live, null, e)

  find_forth :
      (f k : ℕ) (a : Ptr) (xs : List Ptr) (p : Ptr) (ys : List Ptr) (t : Ptr)
      → Links c.next c.previous a (xs ++ p ∷ ys) t
      → All (λ q. c.live q ≡ true) (xs ++ p ∷ ys)
      → length xs < f
      → k + length xs < word
      → find_loop c f true (c.next a) k (k + length xs) ≡ ok p
  unfolding find_loop
  find_forth zero k a xs p ys t l h few small = absurd (omega arith)
  find_forth (suc f) k a [] p ys t l h few small =
      rw (l.0, ne→== p 0 (nonzero p h.0), eq→== k (k + 0) (omega arith)) refl
  find_forth (suc f) k a (x ∷ xs) p ys t l h few small =
      let step : add_word k 1 ≡ k + 1 = omega arith in
      let goal : k + length (x ∷ xs) ≡ (k + 1) + length xs = omega arith in
      rw
        (
          l.0,
          ne→== x 0 (nonzero x h.0),
          ne→== k (k + length (x ∷ xs)) (omega arith),
          h.0,
          step,
          goal,
        )
        (find_forth f (k + 1) x xs p ys t l.2 h.1 (omega arith) (omega arith))

  find_back :
      (f k pos : ℕ) (p : Ptr) (ys : List Ptr) (t : Ptr)
      → Links c.next c.previous p ys t
      → All (λ q. c.live q ≡ true) ys
      → pos ≤ k
      → k + length ys < word
      → find_loop c (f + length ys) false t (k + length ys) pos ≡ find_loop c f false p k pos
  unfolding find_loop
  find_back f k pos p [] t l h at_most small =
      let f0 : f + 0 ≡ f = omega arith in let k0 : k + 0 ≡ k = omega arith in rw (f0, k0, l.1) refl
  find_back f k pos p (y ∷ ys) t l h at_most small =
      let f1 : f + suc (length ys) ≡ suc f + length ys = omega arith in
      let k1 : k + suc (length ys) ≡ (k + 1) + length ys = omega arith in
      let before : sub_word (k + 1) 1 ≡ k = omega arith in
      let step : find_loop c (suc f) false y (k + 1) pos ≡ find_loop c f false p k pos =
        rw (ne→== y 0 (nonzero y h.0), ne→== (k + 1) pos (omega arith), h.0, l.1, before) refl in
      rw (f1, k1) (find_back (suc f) (k + 1) pos y ys t l.2 h.1 (omega arith) (omega arith) ∙ step)

  found_here : (f k : ℕ) (p : Ptr) → c.live p ≡ true → find_loop c (suc f) false p k k ≡ ok p
  unfolding find_loop
  found_here f k p live = rw (ne→== p 0 (nonzero p live), eq→== k k refl) refl

module _ {ℓ} {T : Type ℓ} where
  -- The node behind those of `xs`.
  pub find_node_lem :
      (c : LinkedList T) (xs : List Ptr) (p : Ptr) (ys : List Ptr)
      → Linked c (xs ++ p ∷ ys)
      → find_node c (length xs) ≡ ok p
  unfolding find_node
  find_node_lem c xs p ys h =
      let long : length (xs ++ p ∷ ys) ≡ length xs + suc (length ys) = length-append xs (p ∷ ys) in
      let Lives = λ (q : Ptr). c.live q ≡ true in
      let inside : leb c.size (length xs) ≡ false =
        lt→leb c.size (length xs) (omega (arith, h.sized)) in
      elim (Bool-cases (ltb (length xs) (c.size / 2))) [
        | inl near ↦
            rw (inside, near, h.alive.0)
              (subst (λ n. find_loop c (suc c.size) true (c.next c.head_node) 0 n ≡ ok p)
                (zero-add (length xs))
                (find_forth c h.null (suc c.size) 0 c.head_node xs p ys h.end h.links h.alive.1
                  (omega (arith, h.sized)) (omega (arith, h.small))))
        | inr far ↦
            rw (inside, far)
              (let last : c.tail_node ≡ h.end = h.at_end ∙ end_of_middle xs p ys h.end in
                let index : sub_word c.size 1 ≡ length xs + length ys =
                  omega (arith, h.sized, h.small) in
                let fuel : suc c.size ≡ suc (suc (length xs)) + length ys =
                  omega (arith, h.sized) in
                let there : c.live p ≡ true = (All-right Lives xs (p ∷ ys) h.alive.1).0 in
                simp (last, index, fuel)
                  (find_back c h.null (suc (suc (length xs))) (length xs) (length xs) p ys h.end
                      (Links-after c.next c.previous c.head_node xs p ys h.end h.links)
                      (All-right Lives xs (p ∷ ys) h.alive.1).1 (omega arith)
                      (omega (arith, h.small))
                    ∙ found_here c h.null (suc (length xs)) (length xs) p there))
      ]

  pub find_node-get_elem? :
      (c : LinkedList T) (ps : List Ptr) (i : ℕ) (p : Ptr)
      → Linked c ps
      → get_elem? ps i ≡ some p
      → (find_node c i ≡ ok p) × (c.live p ≡ true)
  find_node-get_elem? c ps i p h here =
      let lt = get_elem?-lt ps i p here in
      let (q, whole, got) = split_at ps i lt in
      let same : q ≡ p = cc (got, here) in
      let l = subst (Linked c) whole h in
      let index : length (take i ps) ≡ i = omega (arith, length-take i ps) in
      (
        subst (λ n. find_node c n ≡ ok p) index
            (find_node_lem c (take i ps) q (drop (suc i) ps) l ∙ ap ok same),
        subst (λ r. c.live r ≡ true) same
            (All-right (λ r. c.live r ≡ true) (take i ps) (q ∷ drop (suc i) ps) l.alive.1).0,
      )

  -- `at` on a list that holds `xs` gives the element at any position inside, and throws at any
  -- other.
  pub at-get_elem? :
      (c : LinkedList T) (xs : List T) (pos : ℕ)
      → Stores c xs
      → at c pos ≡ or_throw (get_elem? xs pos)
  unfolding at
  at-get_elem? c xs pos h = elim (Option-cases (get_elem? h.nodes pos)) [
    | inl out ↦
        let far = get_elem?-none_lem h.nodes pos out in
        let many : length xs ≤ pos = omega (arith, h.linked.sized, size-Stores h) in
        rw (le→leb c.size pos (omega (arith, h.linked.sized)), get_elem?-eq-none xs pos many) refl
    | inr (p, here) ↦
        let lt = get_elem?-lt h.nodes pos p here in
        let (found, live) = find_node-get_elem? c h.nodes pos p h.linked here in
        let value : get_elem? xs pos ≡ some (c.value p) =
          ap (λ l. get_elem? l pos) (sym h.entries) ∙ get_elem?-map c.value h.nodes pos p here in
        rw (lt→leb c.size pos (omega (arith, h.linked.sized)), found, live, value) refl
  ]
