-- ===== src/Nodes/Links.antt =====
-- The links of nodes (Queue.hpp, List.hpp), from the head to the last node.
use mathlib.Core.Path.{subst}
use learn_space.Base.{
  All, Distinct, NotIn, Ptr, update, ◌≡◌, ◌≢◌, refl, sym, ◌∙◌, List, [], ◌∷◌, ◌++◌, eq→==, ne→==,
}

module _ (next previous : Ptr → Ptr) where
  -- From `a` the fields lead through the nodes to the last one, `t`, and back.
  abbrev pub Links : Ptr → List Ptr → Ptr → Type 0
  Links a [] t = (next a ≡ 0) × (t ≡ a)
  Links a (p ∷ ps) t = (next a ≡ p) × (previous p ≡ a) × Links p ps t

  -- What is none of the nodes is not the last one.
  pub not_last : (u a : Ptr) (ps : List Ptr) (t : Ptr) → Links a ps t → u ≢ a → NotIn u ps → u ≢ t
  not_last u a [] t c ne out = λ e. ne (e ∙ c.1)
  not_last u a (p ∷ ps) t c ne out = not_last u p ps t c.2 out.0 out.1

module _ (next previous : Ptr → Ptr) (u v : Ptr) where
  -- A write outside the nodes.
  pub next_outside :
      (a : Ptr) (ps : List Ptr) (t : Ptr)
      → Links next previous a ps t
      → u ≢ a
      → NotIn u ps
      → Links (update next u v) previous a ps t
  next_outside a [] t c ne out = (rw (ne→== u a ne) c.0, c.1)
  next_outside a (p ∷ ps) t c ne out =
      (rw (ne→== u a ne) c.0, c.1, next_outside p ps t c.2 out.0 out.1)

  pub previous_outside :
      (a : Ptr) (ps : List Ptr) (t : Ptr)
      → Links next previous a ps t
      → NotIn u ps
      → Links next (update previous u v) a ps t
  previous_outside a [] t c out = c
  previous_outside a (p ∷ ps) t c out =
      (c.0, rw (ne→== u p out.0) c.1, previous_outside p ps t c.2 out.1)

module _ (next previous : Ptr → Ptr) (u : Ptr) where
  -- A new node behind the last one.
  pub linked_behind :
      (a : Ptr) (ps : List Ptr) (t : Ptr)
      → Links next previous a ps t
      → next u ≡ 0
      → Distinct (a ∷ ps)
      → u ≢ a
      → NotIn u ps
      → Links (update next t u) (update previous u t) a (ps ++ u ∷ []) u
  linked_behind a [] t c end apart ne out = (
    rw (eq→== t a c.1) refl,
    rw (eq→== u u refl) c.1,
    (rw (ne→== t u (λ e. ne (sym e ∙ c.1))) end, refl),
  )
  linked_behind a (p ∷ ps) t c end apart ne out =
      let away = not_last next previous a p ps t c.2 apart.0.0 apart.0.1 in
      (
        rw (ne→== t a (λ e. away (sym e))) c.0,
        rw (ne→== u p out.0) c.1,
        linked_behind p ps t c.2 end apart.1 out.0 out.1,
      )

-- The links behind one of the nodes.
pub Links-after :
    (next previous : Ptr → Ptr) (a : Ptr) (xs : List Ptr) (p : Ptr) (ys : List Ptr) (t : Ptr)
    → Links next previous a (xs ++ p ∷ ys) t
    → Links next previous p ys t
Links-after next previous a [] p ys t l = l.2
Links-after next previous a (x ∷ xs) p ys t l = Links-after next previous x xs p ys t l.2

-- Any property of `a` and the nodes is one of the last of them.
pub last_in {κ} :
    (P : Ptr → Type κ) (next previous : Ptr → Ptr) (a : Ptr) (ps : List Ptr) (t : Ptr)
    → Links next previous a ps t
    → All P (a ∷ ps)
    → P t
last_in P next previous a [] t l h = subst P (sym l.1) h.0
last_in P next previous a (p ∷ ps) t l h = last_in P next previous p ps t l.2 h.1
