-- ===== src/Nodes/Middle.antt =====
-- Taking a node out from between others, and putting one there (List.hpp).
use mathlib.Core.Path.{subst}
use learn_space.Base.{
  ◌≡◌, ◌≢◌, refl, sym, ◌∙◌, List, [], ◌∷◌, ◌++◌, All, All-left, All-right, All-insert, map,
  map-update, ne→==, ap, Ptr, update, NotIn, Distinct, update_self, update_ne,
}
use learn_space.Nodes.Links.{Links, next_outside, previous_outside}

module _ {κ} (P : Ptr → Type κ) (next previous : Ptr → Ptr) where
  -- Any property of the nodes before `p` is one of the node that `p` leads back to.
  pub before_in :
      (a : Ptr) (xs : List Ptr) (p : Ptr) (ys : List Ptr) (t : Ptr)
      → Links next previous a (xs ++ p ∷ ys) t
      → All P (a ∷ xs)
      → P (previous p)
  before_in a [] p ys t l h = subst P (sym l.1) h.0
  before_in a (x ∷ xs) p ys t l h = before_in x xs p ys t l.2 h.1

module _ (next previous : Ptr → Ptr) where
  -- The nodes before `p`, with the last of them leading nowhere.
  pub unlink_last :
      (a : Ptr) (xs : List Ptr) (p : Ptr) (ys : List Ptr) (t : Ptr)
      → Links next previous a (xs ++ p ∷ ys) t
      → Distinct (a ∷ (xs ++ p ∷ ys))
      → Links (update next (previous p) 0) previous a xs (previous p)
  unlink_last a [] p ys t l d = (update_self next (previous p) 0 l.1, l.1)
  unlink_last a (x ∷ xs) p ys t l d =
      let away : a ≢ previous p =
        before_in (λ q. a ≢ q) next previous x xs p ys t l.2
          (d.0.0, All-left (λ q. a ≢ q) xs (p ∷ ys) d.0.1) in
      (
        update_ne next (previous p) 0 (λ e. away (sym e)) ∙ l.0,
        l.1,
        unlink_last x xs p ys t l.2 d.1,
      )

  pub unlink_middle :
      (a : Ptr) (xs : List Ptr) (p q : Ptr) (ys : List Ptr) (t : Ptr)
      → Links next previous a (xs ++ p ∷ q ∷ ys) t
      → Distinct (a ∷ (xs ++ p ∷ q ∷ ys))
      → Links (update next (previous p) q) (update previous q (previous p)) a (xs ++ q ∷ ys) t
  unlink_middle a [] p q ys t l d =
      let b = previous p in
      let apart : b ≢ q = λ e. d.0.1.0 (sym l.1 ∙ e) in
      let out : NotIn b ys = subst (λ r. NotIn r ys) (sym l.1) d.0.1.1 in
      (
        update_self next b q l.1,
        update_self previous q b refl ∙ l.1,
        next_outside next (update previous q b) b q q ys t
            (previous_outside next previous q b q ys t l.2.2 d.1.1.0) apart out,
      )
  unlink_middle a (x ∷ xs) p q ys t l d =
      let b = previous p in
      let away : a ≢ b =
        before_in (λ r. a ≢ r) next previous x xs p (q ∷ ys) t l.2
          (d.0.0, All-left (λ r. a ≢ r) xs (p ∷ q ∷ ys) d.0.1) in
      let back : x ≢ q = (All-right (λ r. x ≢ r) xs (p ∷ q ∷ ys) d.1.0).1.0 in
      (
        update_ne next b q (λ e. away (sym e)) ∙ l.0,
        update_ne previous q b (λ e. back (sym e)) ∙ l.1,
        unlink_middle x xs p q ys t l.2 d.1,
      )

  -- The node `u` between `q` and the one before it.
  pub link_middle :
      (u a : Ptr) (xs : List Ptr) (q : Ptr) (ys : List Ptr) (t : Ptr)
      → Links next previous a (xs ++ q ∷ ys) t
      → Distinct (a ∷ (xs ++ q ∷ ys))
      → NotIn u (a ∷ (xs ++ q ∷ ys))
      → Links
          (update (update next (previous q) u) u q)
          (update (update previous u (previous q)) q u)
          a
          (xs ++ u ∷ q ∷ ys)
          t
  link_middle u a [] q ys t l d out =
      let b = previous q in
      let apart : b ≢ q = λ e. d.0.0 (sym l.1 ∙ e) in
      let free : NotIn b ys = subst (λ r. NotIn r ys) (sym l.1) d.0.1 in
      let next1 = update next b u in
      let previous1 = update previous u b in
      (
        update_ne next1 u q out.0 ∙ update_self next b u l.1,
        update_ne previous1 q u (λ e. out.1.0 (sym e)) ∙ update_self previous u b refl ∙ l.1,
        (
          update_self next1 u q refl,
          update_self previous1 q u refl,
          next_outside next1 (update previous1 q u) u q q ys t
              (next_outside next (update previous1 q u) b u q ys t
                (previous_outside next previous1 q u q ys t
                  (previous_outside next previous u b q ys t l.2 out.1.1) d.1.0)
                apart free)
              out.1.0 out.1.1,
        ),
      )
  link_middle u a (x ∷ xs) q ys t l d out =
      let b = previous q in
      let away : a ≢ b =
        before_in (λ r. a ≢ r) next previous x xs q ys t l.2
          (d.0.0, All-left (λ r. a ≢ r) xs (q ∷ ys) d.0.1) in
      let back : x ≢ q = (All-right (λ r. x ≢ r) xs (q ∷ ys) d.1.0).0 in
      let next1 = update next b u in
      let previous1 = update previous u b in
      (
        update_ne next1 u q out.0 ∙ update_ne next b u (λ e. away (sym e)) ∙ l.0,
        update_ne previous1 q u (λ e. back (sym e)) ∙ update_ne previous u b out.1.0 ∙ l.1,
        link_middle u x xs q ys t l.2 d.1 out.1,
      )

pub Distinct-insert :
    (u : Ptr) (xs ys : List Ptr)
    → Distinct (xs ++ ys)
    → NotIn u (xs ++ ys)
    → Distinct (xs ++ u ∷ ys)
Distinct-insert u [] ys d out = (out, d)
Distinct-insert u (x ∷ xs) ys d out =
    (All-insert (λ r. x ≢ r) xs ys u (λ e. out.0 (sym e)) d.0, Distinct-insert u xs ys d.1 out.1)

-- The values with that of a new node between the others.
pub entries_between {ℓ} :
    {T : Type ℓ} (f : Ptr → T) (u : Ptr) (v : T) (xs ys : List Ptr)
    → NotIn u (xs ++ ys)
    → map (update f u v) (xs ++ u ∷ ys) ≡ map f xs ++ v ∷ map f ys
entries_between f u v [] ys out = simp (update_self f u v refl, map-update f u v ys out)
entries_between f u v (x ∷ xs) ys out =
    rw (ne→== u x out.0) (ap (◌∷◌ (f x)) (entries_between f u v xs ys out.1))
