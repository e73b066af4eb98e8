-- ===== src/Base/Store.antt =====
-- Stores of nodes: addresses, fields after a write, and lists of nodes that differ.
use learn_space.Base.Tests.{if◌then◌else◌, ◌==◌, eq→==, ne→==}
use learn_space.Base.Every.{All, All-left, All-right, All-without, All-append}
use learn_space.Base.Lists.{get_elem?}
use mathlib.Core.Option.{some}
use mathlib.Core.Path.{subst}
use Prim.Native.Nat.{ℕ, zero, suc, ◌+◌, ◌<◌}
use mathlib.Core.Path.{◌≡◌, refl, sym, ap}
use mathlib.Core.Logic.{◌≢◌}
use mathlib.Core.Bool.{Bool, true, false}
use mathlib.Core.List.{List, [], ◌∷◌, ◌++◌, map}
use native.Mathlib.Omega.{arith}

abbrev pub Ptr : Type 0
Ptr = ℕ

-- A field, or a map, after one write.
abbrev pub update {ℓ} : {B : Type ℓ} → (Ptr → B) → Ptr → B → Ptr → B
update f p v q = if p == q then v else f q

-- None of the elements is `x`; no two are equal.
abbrev pub NotIn {ℓ} : {A : Type ℓ} → A → List A → Type ℓ
NotIn x = All (λ y. x ≢ y)

abbrev pub Distinct {ℓ} : {A : Type ℓ} → List A → Type ℓ
Distinct [] = Unit
Distinct (x ∷ xs) = NotIn x xs × Distinct xs

module _ {ℓ} {A : Type ℓ} where
  pub Distinct-without : (xs ys : List A) (y : A) → Distinct (xs ++ y ∷ ys) → Distinct (xs ++ ys)
  Distinct-without [] ys y h = h.1
  Distinct-without (x ∷ xs) ys y h =
      (All-without (λ z. x ≢ z) xs ys y h.0, Distinct-without xs ys y h.1)

  -- The element in the middle is none of the others.
  pub NotIn-middle : (xs ys : List A) (y : A) → Distinct (xs ++ y ∷ ys) → NotIn y (xs ++ ys)
  NotIn-middle [] ys y h = h.0
  NotIn-middle (x ∷ xs) ys y h =
      (λ e. (All-right (λ z. x ≢ z) xs (y ∷ ys) h.0).0 (sym e), NotIn-middle xs ys y h.1)

-- After a node is freed the others are there.
pub All-dead :
    (live : Ptr → Bool) (u : Ptr) (ps : List Ptr)
    → All (λ p. live p ≡ true) ps
    → NotIn u ps
    → All (λ p. update live u false p ≡ true) ps
All-dead live u [] h out = tt
All-dead live u (p ∷ ps) h out = (rw (ne→== u p out.0) h.0, All-dead live u ps h.1 out.1)

pub update_self {ℓ} :
    {B : Type ℓ} (f : Ptr → B) (u : Ptr) (v : B) {q : Ptr} → u ≡ q → update f u v q ≡ v
update_self f u v {q} e = rw (eq→== u q e)

pub update_ne {ℓ} :
    {B : Type ℓ} (f : Ptr → B) (u : Ptr) (v : B) {q : Ptr} → u ≢ q → update f u v q ≡ f q
update_ne f u v {q} e = rw (ne→== u q e)

module _ {ℓ} {B : Type ℓ} where
  -- A write of a field outside a list of nodes.
  pub map-update :
      (f : Ptr → B) (u : Ptr) (v : B) (ps : List Ptr)
      → NotIn u ps
      → map (update f u v) ps ≡ map f ps
  map-update f u v [] h = refl
  map-update f u v (p ∷ ps) h = rw (ne→== u p h.0) (ap (◌∷◌ (f p)) (map-update f u v ps h.1))

pub NotIn-below : (u : Ptr) (ps : List Ptr) → All (λ p. p < u) ps → NotIn u ps
NotIn-below u [] h = tt
NotIn-below u (p ∷ ps) h = (λ e. absurd (omega arith), NotIn-below u ps h.1)

pub All-below : (u : Ptr) (ps : List Ptr) → All (λ p. p < u) ps → All (λ p. p < u + 1) ps
All-below u [] h = tt
All-below u (p ∷ ps) h = (omega arith, All-below u ps h.1)

pub All-live :
    (live : Ptr → Bool) (u : Ptr) (ps : List Ptr)
    → All (λ p. live p ≡ true) ps
    → All (λ p. update live u true p ≡ true) ps
All-live live u [] h = tt
All-live live u (p ∷ ps) h = (ground arith, All-live live u ps h.1)

-- Where an element of a mapped list comes from.
pub map_split {ℓ κ} :
    {A : Type ℓ} {B : Type κ} (f : A → B) (ps : List A) (bs cs : List B) (b : B)
    → map f ps ≡ bs ++ b ∷ cs
    → (xs : List A) × (p : A) × (ys : List A) × (ps ≡ xs ++ p ∷ ys)
      × (map f xs ≡ bs)
      × (f p ≡ b)
      × (map f ys ≡ cs)
map_split f [] [] cs b e = absurd (cc e)
map_split f [] (b' ∷ bs) cs b e = absurd (cc e)
map_split f (p ∷ ps) [] cs b e = ([], p, ps, refl, refl, cc e, cc e)
map_split f (p ∷ ps) (b' ∷ bs) cs b e =
    let (xs, q, ys, split, front, here, back) = map_split f ps bs cs b (cc e) in
    (p ∷ xs, q, ys, ap (◌∷◌ p) split, cc (e, front), here, back)

pub Distinct-behind : (ps : List Ptr) (u : Ptr) → Distinct ps → NotIn u ps → Distinct (ps ++ u ∷ [])
Distinct-behind [] u d out = (tt, tt)
Distinct-behind (p ∷ ps) u d out = (
  All-append (λ q. p ≢ q) ps (u ∷ []) d.0 ((λ e. out.0 (sym e)), tt),
  Distinct-behind ps u d.1 out.1,
)

-- An element at an index has what all have.
pub get_elem?-mem {ℓ κ} :
    {A : Type ℓ} (P : A → Type κ) (xs : List A) (i : ℕ) (x : A)
    → All P xs
    → get_elem? xs i ≡ some x
    → P x
get_elem?-mem P [] i x h e = absurd (cc e)
get_elem?-mem P (y ∷ xs) zero x h e = subst P (cc e) h.0
get_elem?-mem P (y ∷ xs) (suc i) x h e = get_elem?-mem P xs i x h.1 e

-- What is in the one part of a list without repetitions is not in the other.
pub Distinct-parts {ℓ} :
    {A : Type ℓ} (xs ys : List A) → Distinct (xs ++ ys) → All (λ x. NotIn x ys) xs
Distinct-parts [] ys d = tt
Distinct-parts (x ∷ xs) ys d = (All-right (λ y. x ≢ y) xs ys d.0, Distinct-parts xs ys d.1)

pub Distinct-right {ℓ} : {A : Type ℓ} (xs ys : List A) → Distinct (xs ++ ys) → Distinct ys
Distinct-right [] ys d = d
Distinct-right (x ∷ xs) ys d = Distinct-right xs ys d.1

pub Distinct-left {ℓ} : {A : Type ℓ} (xs ys : List A) → Distinct (xs ++ ys) → Distinct xs
Distinct-left [] ys d = tt
Distinct-left (x ∷ xs) ys d = (All-left (λ y. x ≢ y) xs ys d.0, Distinct-left xs ys d.1)
