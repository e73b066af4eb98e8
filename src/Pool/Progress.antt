-- ===== src/Pool/Progress.antt =====
-- After `close` has set the flag the pool (ThreadPool.cpp) does not get stuck.
use learn_space.Base.{
  All-right, ℕ, zero, suc, ◌+◌, ◌≤◌, ◌≡◌, refl, ap, sym, true, false, some, List, [], ◌∷◌, ◌++◌,
  map, All, if◌then◌else◌, ◌&&◌, arith, total, ◌⊎◌, inl, inr, Bool-cases,
}
use learn_space.Pool.{
  pool, Shared, Worker, starting, waiting, woken, testing, ready, running, finished, broken, Client,
  adding, pushing, notifying, returned, closing, swapping, flagging, waking, unlocking, joining,
  closed, no_one, all, is_nil, work, call, rouse, Awake, Pool, Step, work_step, spurious_step,
  unheard_step, notify_step, call_step, notify_all_step, Reaches,
}
use learn_space.Pool.Exclusion.{List-cases, bit, holds, holds_call, holders, one_holder}
use mathlib.Core.Path.{subst}
use learn_space.Pool.{is_finished, all_finished}
use learn_space.Pool.Guard.{Guarded, workers-Guarded}
use learn_space.Pool.Close.{none_asleep}

zero_or_more : (n : ℕ) → (n ≡ 0) ⊎ (1 ≤ n)
zero_or_more zero = inl refl
zero_or_more (suc n) = inr (omega arith)

-- An element that counts.
counted {ℓ} :
    {A : Type ℓ} (f : A → ℕ) (bs : List A)
    → 1 ≤ total f bs
    → (xs : List A) × (a : A) × (ys : List A) × (bs ≡ xs ++ a ∷ ys) × (1 ≤ f a)
counted f [] h = absurd (omega arith)
counted f (a ∷ bs) h = elim (zero_or_more (f a)) [
  | inl e ↦
      let (xs, b, ys, split, k) = counted f bs (omega arith) in (a ∷ xs, b, ys, ap (◌∷◌ a) split, k)
  | inr k ↦ ([], a, bs, refl, k)
]

module _ {ℓ} {T : Type ℓ} where
  -- A worker that has not returned.
  unfinished :
      (ws : List (Worker T))
      → all_finished ws ≡ false
      → (xs : List (Worker T)) × (w : Worker T) × (ys : List (Worker T)) × (ws ≡ xs ++ w ∷ ys)
        × (is_finished w ≡ false)
  unfinished [] h = absurd (cc h)
  unfinished (w ∷ ws) h = elim (Bool-cases (is_finished w)) [
    | inl done ↦
        let rest : all_finished ws ≡ false = ground (arith, h, done) in
        let (xs, v, ys, split, k) = unfinished ws rest in (w ∷ xs, v, ys, ap (◌∷◌ w) split, k)
    | inr left ↦ ([], w, ws, refl, left)
  ]

  unfoldable Works : Shared T → Worker T → Type ℓ
  Works s w = (s' : Shared T) × (w' : Worker T) × (work s w ≡ some (s', w'))

  holder-Works : (s : Shared T) (w : Worker T) → 1 ≤ holds w → Guarded s w → Works s w
  unfolding Works work
  holder-Works s starting h g = absurd (omega arith)
  holder-Works s waiting h g = absurd (omega arith)
  holder-Works s woken h g = absurd (omega arith)
  holder-Works s testing h g =
      elim (Bool-cases (is_nil s.tasks && (if s.flag then false else true))) [
        | inl left ↦ (record s { locked = false }, waiting, rw left refl)
        | inr right ↦ (s, ready, rw right refl)
      ]
  holder-Works s ready h g = elim (List-cases s.tasks) [
    | inl none_left ↦ (record s { locked = false }, finished, ground (arith, none_left, g))
    | inr (t, ts, there) ↦ (
      record s { tasks = ts; locked = false; gone = s.gone ++ (t, true) ∷ [] },
      running t,
      rw there refl,
    )
  ]
  holder-Works s (running t) h g = absurd (omega arith)
  holder-Works s finished h g = absurd (omega arith)
  holder-Works s broken h g = absurd (cc g)

  -- A worker that is awake gets on while the mutex is free.
  free-Works :
      (s : Shared T) (w : Worker T)
      → s.locked ≡ false
      → Awake w
      → is_finished w ≡ false
      → Guarded s w
      → Works s w
  unfolding Works work
  free-Works s starting free up left g = (record s { locked = true }, testing, rw free refl)
  free-Works s waiting free up left g = absurd (cc up)
  free-Works s woken free up left g = (record s { locked = true }, testing, rw free refl)
  free-Works s testing free up left g = holder-Works s testing (omega arith) g
  free-Works s ready free up left g = holder-Works s ready (omega arith) g
  free-Works s (running t) free up left g = (s, starting, refl)
  free-Works s finished free up left g = absurd (cc left)
  free-Works s broken free up left g = absurd (cc g)

  -- A client that has the mutex gets on, and wakes all or no one.
  holder_calls :
      (s : Shared T) (ws : List (Worker T)) (c : Client T)
      → 1 ≤ holds_call c
      → (s' : Shared T) × (c' : Client T) × ((call s ws c ≡ some (s', c', no_one))
          ⊎ (call s ws c ≡ some (s', c', all)))
  unfolding call
  holder_calls s ws (adding ts everyone) h = absurd (omega arith)
  holder_calls s ws (pushing [] everyone) h = (_, _, inl refl)
  holder_calls s ws (pushing (t ∷ ts) everyone) h = (_, _, inl refl)
  holder_calls s ws (notifying everyone) h = absurd (omega arith)
  holder_calls s ws returned h = absurd (omega arith)
  holder_calls s ws closing h = absurd (omega arith)
  holder_calls s ws swapping h = (_, _, inl refl)
  holder_calls s ws flagging h = (_, _, inl refl)
  holder_calls s ws waking h = (_, _, inr refl)
  holder_calls s ws unlocking h = (_, _, inl refl)
  holder_calls s ws joining h = absurd (omega arith)
  holder_calls s ws closed h = absurd (omega arith)

  -- A step that is no spurious wakeup.
  abbrev pub Deliberate : {p q : Pool T} → Step p q → Type 0
  Deliberate (work_step s s' w w' xs ys cs e) = Unit
  Deliberate (spurious_step s xs ys cs) = ⊥
  Deliberate (call_step s s' c c' ws xs ys e) = Unit
  Deliberate (notify_step s s' c c' us vs xs ys e) = Unit
  Deliberate (unheard_step s s' c c' ws xs ys e out) = Unit
  Deliberate (notify_all_step s s' c c' ws xs ys e) = Unit

  -- The pool can take such a step.
  abbrev pub Proceeds : Pool T → Type ℓ
  Proceeds p = (q : Pool T) × (step : Step p q) × Deliberate step

  worker_steps :
      (p : Pool T) (xs : List (Worker T)) (w : Worker T) (ys : List (Worker T))
      → p.works ≡ xs ++ w ∷ ys
      → Works p.shared w
      → Proceeds p
  unfolding Works
  worker_steps p xs w ys split (s', w', e) =
      subst (λ ws. Proceeds (pool p.shared ws p.clients)) (sym split)
        (pool s' (xs ++ w' ∷ ys) p.clients, work_step p.shared s' w w' xs ys p.clients e, tt)

  client_steps :
      (p : Pool T) (xs : List (Client T)) (c : Client T) (ys : List (Client T))
      → p.clients ≡ xs ++ c ∷ ys
      → 1 ≤ holds_call c
      → Proceeds p
  client_steps p xs c ys split h =
      let (s', c', e) = holder_calls p.shared p.works c h in
      subst (λ cs. Proceeds (pool p.shared p.works cs)) (sym split)
        (elim e [
          | inl quiet ↦
              (pool s' p.works (xs ++ c' ∷ ys), call_step p.shared s' c c' p.works xs ys quiet, tt)
          | inr loud ↦ (
            pool s' (map rouse p.works) (xs ++ c' ∷ ys),
            notify_all_step p.shared s' c c' p.works xs ys loud,
            tt,
          )
        ])

  -- While the mutex is locked, the thread that has it gets on.
  pub holder_steps : {n : ℕ} {p : Pool T} → Reaches n p → p.shared.locked ≡ true → Proceeds p
  unfolding holders
  holder_steps {n} {p} r locked =
      let held : total holds p.works + total holds_call p.clients ≡ 1 =
        omega (arith, one_holder r, ap bit locked) in
      elim (zero_or_more (total holds p.works)) [
        | inl none_works ↦
            let (xs, c, ys, split, k) =
              counted holds_call p.clients (omega (arith, held, none_works)) in
            client_steps p xs c ys split k
        | inr some_works ↦
            let (xs, w, ys, split, k) = counted holds p.works some_works in
            let guarded = subst (All (Guarded p.shared)) split (workers-Guarded r) in
            worker_steps p xs w ys split
              (holder-Works p.shared w k (All-right (Guarded p.shared) xs (w ∷ ys) guarded).0)
      ]

  -- Once `close` has set the flag, a pool some worker of which has not returned can take a step that is
  -- no spurious wakeup.
  pub close_progress :
      {n : ℕ} {p : Pool T}
      → Reaches n p
      → p.shared.flag ≡ true
      → all_finished p.works ≡ false
      → Proceeds p
  close_progress {n} {p} r flag left = elim (Bool-cases p.shared.locked) [
    | inl locked ↦ holder_steps r locked
    | inr free ↦
        let (xs, w, ys, split, k) = unfinished p.works left in
        let guarded = subst (All (Guarded p.shared)) split (workers-Guarded r) in
        let up = subst (All Awake) split (none_asleep r flag free) in
        worker_steps p xs w ys split (
          free-Works p.shared w free (All-right Awake xs (w ∷ ys) up).0 k
            (All-right (Guarded p.shared) xs (w ∷ ys) guarded).0)
  ]
