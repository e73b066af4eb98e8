-- ===== src/LinkedList/Range.antt =====
-- `removeAt` of List.hpp with a length that reaches the end of the list.
use mathlib.Core.Path.{subst}
use learn_space.Base.{
  ℕ, zero, suc, ◌+◌, ◌<◌, ◌≤◌, ◌≡◌, ◌≢◌, refl, sym, ap, ◌∙◌, true, false, Bool, List, [], ◌∷◌, ◌++◌,
  map, length, length-append, length-map, All, All-left, All-right, All-dead, Outcome, ok, ◌>>=◌,
  arith, eq→==, ne→==, le→leb, Ptr, update, update_self, update_ne, NotIn, Distinct, Distinct-parts,
  Distinct-right, Distinct-left, bind_assoc, if◌then◌else◌, ◌==◌,
}
use learn_space.Base.Word.{word, add_word, sub_word}
use learn_space.Nodes.{delete}
use learn_space.Nodes.Links.{Links, Links-after, not_last, next_outside, last_in}
use learn_space.Nodes.Linked.{end_of_middle, Linked, Stores, located}
use learn_space.Nodes.Middle.{before_in, unlink_last}
use learn_space.LinkedList.Find.{find_node_lem}
use learn_space.LinkedList.Middle.{before_live, tail_without, inside}
use learn_space.LinkedList.Whole.{Freed, no_null}
use learn_space.LinkedList.{LinkedList, delete_loop, remove_range}

module _ (next previous : Ptr → Ptr) where
  -- The last node leads nowhere.
  last_next : (a : Ptr) (ps : List Ptr) (t : Ptr) → Links next previous a ps t → next t ≡ 0
  last_next a [] t l = ap next l.1 ∙ l.0
  last_next a (p ∷ ps) t l = last_next p ps t l.2

-- What is not freed is as it was.
kept_alive :
    {live live' : Ptr → Bool} (ps : List Ptr)
    → ((q : Ptr) → NotIn q ps → live' q ≡ live q)
    → (qs : List Ptr) → All (λ q. NotIn q ps) qs
    → All (λ q. live q ≡ true) qs
    → All (λ q. live' q ≡ true) qs
kept_alive ps kept [] out h = tt
kept_alive ps kept (q ∷ qs) out h = (kept q out.0 ∙ h.0, kept_alive ps kept qs out.1 h.1)

module _ {ℓ} {T : Type ℓ} where
  -- The loop and the `delete` behind it free the nodes from `p` to the last one.
  delete_loop-Freed :
      (c : LinkedList T) (fuel : ℕ) (p : Ptr) (ps : List Ptr) (t : Ptr)
      → Links c.next c.previous p ps t
      → All (λ q. c.live q ≡ true) (p ∷ ps)
      → Distinct (p ∷ ps)
      → length ps < fuel
      → (live' : Ptr → Bool) × ((delete_loop c fuel p t >>= λ c4. delete c4 t)
          ≡ ok (record c { live = live' }))
        × Freed c.live (p ∷ ps) live'
  unfolding delete_loop
  delete_loop-Freed c zero p ps t l h d few = absurd (omega arith)
  delete_loop-Freed c (suc fuel) p [] t l h d few = (
    update c.live p false,
    rw (l.1, eq→== p p refl, h.0) refl,
    ((update_self c.live p false refl, tt), λ q out. update_ne c.live p false (λ e. out.0 (sym e))),
  )
  delete_loop-Freed c (suc fuel) p (q ∷ ps) t l h d few =
      let c1 = record c { live = update c.live p false } in
      let (live', run, freed) =
        delete_loop-Freed c1 fuel q ps t l.2 (All-dead c.live p (q ∷ ps) h.1 d.0) d.1
          (omega arith) in
      (
        live',
        rw (ne→== p t (not_last c.next c.previous p q ps t l.2 d.0.0 d.0.1), h.0, l.0) run,
        (
          (freed.1 p d.0 ∙ update_self c.live p false refl, freed.0),
          λ r out. freed.1 r out.1 ∙ update_ne c.live p false (λ e. out.0 (sym e)),
        ),
      )

module _ {ℓ} {T : Type ℓ} (c : LinkedList T) (xs : List Ptr) (p : Ptr) (ys : List Ptr)
    (h : Linked c (xs ++ p ∷ ys)) where
  -- The list before the nodes are freed.
  abbrev cut : LinkedList T
  cut = record c {
    tail_node = if c.previous p == c.head_node then 0 else c.previous p;
    next = update c.next (c.previous p) 0;
  }

  before_out : NotIn (c.previous p) (p ∷ ys)
  before_out =
      before_in (λ q. NotIn q (p ∷ ys)) c.next c.previous c.head_node xs p ys h.end h.links
        (Distinct-parts (c.head_node ∷ xs) (p ∷ ys) h.apart)

  behind : Links c.next c.previous p ys h.end
  behind = Links-after c.next c.previous c.head_node xs p ys h.end h.links

  cut_freed :
      (live' : Ptr → Bool) × ((delete_loop cut (suc c.size) p h.end >>= λ c4. delete c4 h.end)
        ≡ ok (record cut { live = live' }))
      × Freed c.live (p ∷ ys) live'
  cut_freed =
      delete_loop-Freed cut (suc c.size) p ys h.end
        (next_outside c.next c.previous (c.previous p) 0 p ys h.end behind before_out.0
          before_out.1)
        (All-right (λ q. c.live q ≡ true) xs (p ∷ ys) h.alive.1)
        (Distinct-right xs (p ∷ ys) h.apart.1) (omega (arith, h.sized, length-append xs (p ∷ ys)))

  remove_range_ok :
      (len : ℕ)
      → length (p ∷ ys) ≤ len
      → length xs + len < word
      → remove_range c (length xs) len
        ≡ ok (record cut {
          live = cut_freed.0;
          size = sub_word c.size (sub_word c.size (length xs));
        })
  unfolding remove_range
  remove_range_ok len long small =
      let lives = All-right (λ q. c.live q ≡ true) xs (p ∷ ys) h.alive.1 in
      let size = length-append xs (p ∷ ys) in
      let end_lives = last_in (λ q. c.live q ≡ true) c.next c.previous p ys h.end behind lives in
      let end_next = last_next c.next c.previous p ys h.end behind in
      let apart : c.previous p ≢ h.end =
        last_in (λ q. c.previous p ≢ q) c.next c.previous p ys h.end behind before_out in
      let shrunk : LinkedList T → Outcome (LinkedList T) =
        λ c5. ok (record c5 { size = sub_word c5.size (suc (length ys)) }) in
      let n : sub_word c.size (length xs) ≡ length (p ∷ ys) =
        omega (arith, h.sized, h.small, size) in
      simp
        (
          inside c xs p ys h,
          le→leb c.size (add_word (length xs) len) (omega (arith, h.sized, size)),
          find_node_lem c xs p ys h,
          n,
          eq→== (add_word (length xs) (length (p ∷ ys))) c.size
              (omega (arith, h.sized, h.small, size)),
          h.at_end,
          end_of_middle xs p ys h.end,
          eq→== h.end h.end refl,
          lives.0,
          end_lives,
          before_live c xs p ys h,
          end_next,
          ne→== (c.previous p) h.end apart,
        )
        (bind_assoc (delete_loop cut (suc c.size) p h.end) (λ c4. delete c4 h.end) shrunk
          ∙ ap (λ m. m >>= shrunk) cut_freed.1)

  range_links :
      (len : ℕ)
      → length (p ∷ ys) ≤ len
      → length xs + len < word
      → (c' : LinkedList T) × (remove_range c (length xs) len ≡ ok c')
        × (c'.value ≡ c.value)
        × Linked c' xs
  range_links len long small =
      let freed = cut_freed.2 in
      (
        record cut { live = cut_freed.0; size = sub_word c.size (sub_word c.size (length xs)) },
        remove_range_ok len long small,
        refl,
        record {
          end = c.previous p;
          links = unlink_last c.next c.previous c.head_node xs p ys h.end h.links h.apart;
          at_end = tail_without c xs p ys h;
          sized = omega (arith, h.sized, h.small, length-append xs (p ∷ ys));
          small = omega (arith, h.small, length-append xs (p ∷ ys));
          apart = Distinct-left (c.head_node ∷ xs) (p ∷ ys) h.apart;
          alive =
              kept_alive (p ∷ ys) freed.1 (c.head_node ∷ xs)
                (Distinct-parts (c.head_node ∷ xs) (p ∷ ys) h.apart)
                (All-left (λ q. c.live q ≡ true) (c.head_node ∷ xs) (p ∷ ys) h.alive);
          below = All-left (λ r. r < c.fresh) (c.head_node ∷ xs) (p ∷ ys) h.below;
          null =
              freed.1 0 (
                no_null c.live (p ∷ ys) (All-right (λ q. c.live q ≡ true) xs (p ∷ ys) h.alive.1)
                  h.null)
              ∙ h.null;
        },
      )

module _ {ℓ} {T : Type ℓ} where
  -- `removeAt` at the index behind `xs` of a list that holds `xs` and then at least one element, with
  -- a length that reaches the end of the list and no sum of 2 ^ 32 or more, leaves `xs`.
  pub remove_range-Stores :
      (c : LinkedList T) (xs : List T) (y : T) (ys : List T) (len : ℕ)
      → Stores c (xs ++ y ∷ ys)
      → length (y ∷ ys) ≤ len
      → length xs + len < word
      → (c' : LinkedList T) × (remove_range c (length xs) len ≡ ok c') × Stores c' xs
  remove_range-Stores c xs y ys len h long small =
      let (ps, p, qs, l, front, here, back, many) = located xs y ys h in
      let rest : length qs ≡ length ys = sym (length-map c.value qs) ∙ ap length back in
      let (c', run, values, l') =
        range_links c ps p qs l len (omega (arith, rest)) (omega (arith, many)) in
      (
        c',
        subst (λ n. remove_range c n len ≡ ok c') many run,
        record { nodes = ps; linked = l'; entries = ap (λ f. map f ps) values ∙ front },
      )
