-- ===== src/Nodes.antt =====
-- Nodes linked behind a head that holds no element: what `Queue<T>` (Data Structure/DataStructure/
-- Queue.hpp) and `List<T>` (List.hpp) are made of. The nodes are kept field by field, as those of
-- the cache; 0 is the null pointer, and addresses are not used again.
pub mod Links
pub mod Linked
pub mod Behind
pub mod Middle
use learn_space.Base.{ℕ, ◌+◌, Bool, true, false, Outcome, ok, ◌>>=◌, ◌>>◌, defined, Ptr, update}

-- The fields of the nodes, and `m_head`, `m_tail` and `m_size`.
pub record Chained {ℓ} (T : Type ℓ) : Type ℓ where
  pub live : Ptr → Bool
  pub value : Ptr → T
  pub next : Ptr → Ptr
  pub previous : Ptr → Ptr
  pub fresh : Ptr
  pub head_node : Ptr
  pub tail_node : Ptr
  pub size : ℕ

module _ {ℓ} {T : Type ℓ} where
  -- `p->next`, `p->previous` and `p->data`, read and written
  abbrev pub next_of : Chained T → Ptr → Outcome Ptr
  next_of c p = do defined (c.live p); ok (c.next p)

  abbrev pub previous_of : Chained T → Ptr → Outcome Ptr
  previous_of c p = do defined (c.live p); ok (c.previous p)

  abbrev pub data_of : Chained T → Ptr → Outcome T
  data_of c p = do defined (c.live p); ok (c.value p)

  abbrev pub set_next : Chained T → Ptr → Ptr → Outcome (Chained T)
  set_next c p q = do defined (c.live p); ok (record c { next = update c.next p q })

  abbrev pub set_previous : Chained T → Ptr → Ptr → Outcome (Chained T)
  set_previous c p q = do defined (c.live p); ok (record c { previous = update c.previous p q })

  abbrev pub delete : Chained T → Ptr → Outcome (Chained T)
  delete c p = do defined (c.live p); ok (record c { live = update c.live p false })

  -- `new NodeT`, and its `data` set to `t`
  unfoldable pub new_node : Chained T → T → Chained T
  new_node c t = record c {
    live = update c.live c.fresh true;
    value = update c.value c.fresh t;
    next = update c.next c.fresh 0;
    previous = update c.previous c.fresh 0;
    fresh = c.fresh + 1;
  }

  -- The fields as a constructor sets them; `t` is in the head, and is not read.
  unfoldable pub head_only : T → Chained T
  head_only t = record {
    live = update (λ _. false) 1 true;
    value = λ _. t;
    next = λ _. 0;
    previous = λ _. 0;
    fresh = 2;
    head_node = 1;
    tail_node = 0;
    size = 0;
  }
