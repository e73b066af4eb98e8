-- ===== src/Lru/Chain.antt =====
-- Doubly linked chains of nodes, over the two pointer fields of LRU.hpp.
use learn_space.Base.{NotIn, Ptr, update, All, ◌≡◌, ◌≢◌, List, [], ◌∷◌, ◌++◌, ne→==}

module _ (next pre : Ptr → Ptr) where
  -- From `a` the fields lead through `ps` to `b`, and back.
  abbrev pub Chain : Ptr → List Ptr → Ptr → Type 0
  Chain a [] b = (next a ≡ b) × (pre b ≡ a)
  Chain a (p ∷ ps) b = (next a ≡ p) × (pre p ≡ a) × Chain p ps b

  -- What holds of all nodes before `p` holds of the one that `pre p` names, and so behind it.
  pub pre_in {κ} :
      (P : Ptr → Type κ) (a b p : Ptr) (xs ys : List Ptr)
      → Chain a (xs ++ p ∷ ys) b
      → P a
      → All P xs
      → P (pre p)
  pre_in P a b p [] ys c pa h = rw c.1 pa
  pre_in P a b p (x ∷ xs) ys c pa h = pre_in P x b p xs ys c.2 h.0 h.1

  pub next_in {κ} :
      (P : Ptr → Type κ) (a b p : Ptr) (xs ys : List Ptr)
      → Chain a (xs ++ p ∷ ys) b
      → P b
      → All P ys
      → P (next p)
  next_in P a b p [] [] c pb h = rw c.2.0 pb
  next_in P a b p [] (y ∷ ys) c pb h = rw c.2.0 h.0
  next_in P a b p (x ∷ xs) ys c pb h = next_in P x b p xs ys c.2 pb h

module _ (next pre : Ptr → Ptr) (u v : Ptr) where
  -- A write outside the nodes of a chain leaves it.
  pub frame_next :
      (a b : Ptr) (ps : List Ptr)
      → Chain next pre a ps b
      → u ≢ a
      → NotIn u ps
      → Chain (update next u v) pre a ps b
  frame_next a b [] c na h = (rw (ne→== u a na) c.0, c.1)
  frame_next a b (p ∷ ps) c na h = (rw (ne→== u a na) c.0, c.1, frame_next p b ps c.2 h.0 h.1)

  pub frame_pre :
      (a b : Ptr) (ps : List Ptr)
      → Chain next pre a ps b
      → u ≢ b
      → NotIn u ps
      → Chain next (update pre u v) a ps b
  frame_pre a b [] c nb h = (c.0, rw (ne→== u b nb) c.1)
  frame_pre a b (p ∷ ps) c nb h = (c.0, rw (ne→== u p h.0) c.1, frame_pre p b ps c.2 nb h.1)
