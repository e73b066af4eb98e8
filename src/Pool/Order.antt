-- ===== src/Pool/Order.antt =====
-- The tasks of the pool (ThreadPool.cpp): what becomes of them, and in which order.
use mathlib.Core.List.{map-append}
use learn_space.Base.{
  ℕ, ◌≡◌, refl, ap, sym, ◌∙◌, Bool, true, false, some, List, [], ◌∷◌, ◌++◌, map, arith, inl, inr,
  append-nil, append_assoc,
}
use learn_space.Pool.{
  Shared, Worker, starting, waiting, woken, testing, ready, running, finished, broken, Client,
  adding, pushing, notifying, returned, closing, swapping, flagging, waking, unlocking, joining,
  closed, Wake, no_one, one, all, work, call, Pool, Step, work_step, spurious_step, call_step,
  notify_step, unheard_step, notify_all_step, construct, Reaches, reach_start, reach_step,
}
use learn_space.Pool.Exclusion.{List-cases}

module _ {ℓ} {T : Type ℓ} where
  -- The tasks that left the queue and those in it are all that were given, in order.
  abbrev pub Ordered : Shared T → Type ℓ
  Ordered s = s.given ≡ map (λ (g : T × Bool). g.0) s.gone ++ s.tasks

  work_order :
      (s s' : Shared T) (w w' : Worker T) → work s w ≡ some (s', w') → Ordered s → Ordered s'
  unfolding work
  work_order s s' starting w' e h = ground (arith, e, h)
  work_order s s' waiting w' e h = ground (arith, e, h)
  work_order s s' woken w' e h = ground (arith, e, h)
  work_order s s' testing w' e h = ground (arith, e, h)
  work_order s s' ready w' e h = elim (List-cases s.tasks) [
    | inl none_left ↦ ground (arith, e, none_left, h)
    | inr (t, ts, there) ↦
        let moved : map (λ (g : T × Bool). g.0) (s.gone ++ (t, true) ∷ []) ++ ts
            ≡ map (λ (g : T × Bool). g.0) s.gone ++ s.tasks =
          ap (λ l. l ++ ts) (map-append (λ (g : T × Bool). g.0) s.gone ((t, true) ∷ []))
          ∙ append_assoc (map (λ (g : T × Bool). g.0) s.gone) (t ∷ []) ts
          ∙ ap (λ l. map (λ (g : T × Bool). g.0) s.gone ++ l) (sym there) in
        ground (arith, e, there, moved, h)
  ]
  work_order s s' (running t) w' e h = ground (arith, e, h)
  work_order s s' finished w' e h = ground (arith, e, h)
  work_order s s' broken w' e h = ground (arith, e, h)

  dropped_all : (ts : List T) → map (λ (g : T × Bool). g.0) (map (λ t. (t, false)) ts) ≡ ts
  dropped_all [] = refl
  dropped_all (t ∷ ts) = ap (◌∷◌ t) (dropped_all ts)

  call_order :
      (s s' : Shared T) (ws : List (Worker T)) (c c' : Client T) (wake : Wake)
      → call s ws c ≡ some (s', c', wake)
      → Ordered s
      → Ordered s'
  unfolding call
  call_order s s' ws (adding ts everyone) c' wake e h = ground (arith, e, h)
  call_order s s' ws (pushing [] everyone) c' wake e h = ground (arith, e, h)
  call_order s s' ws (pushing (t ∷ ts) everyone) c' wake e h =
      let pushed : s.given ++ t ∷ [] ≡ map (λ (g : T × Bool). g.0) s.gone ++ (s.tasks ++ t ∷ []) =
        ap (λ l. l ++ t ∷ []) h
        ∙ append_assoc (map (λ (g : T × Bool). g.0) s.gone) s.tasks (t ∷ []) in
      ground (arith, e, pushed)
  call_order s s' ws (notifying everyone) c' wake e h = ground (arith, e, h)
  call_order s s' ws returned c' wake e h = ground (arith, e, h)
  call_order s s' ws closing c' wake e h = ground (arith, e, h)
  call_order s s' ws swapping c' wake e h =
      let swapped : s.given
          ≡ map (λ (g : T × Bool). g.0) (s.gone ++ map (λ t. (t, false)) s.tasks) ++ [] =
        h
        ∙ ap (λ l. map (λ (g : T × Bool). g.0) s.gone ++ l) (sym (dropped_all s.tasks))
        ∙ sym (map-append (λ (g : T × Bool). g.0) s.gone (map (λ t. (t, false)) s.tasks))
        ∙ sym
            (append-nil (map (λ (g : T × Bool). g.0) (s.gone ++ map (λ t. (t, false)) s.tasks))) in
      ground (arith, e, swapped)
  call_order s s' ws flagging c' wake e h = ground (arith, e, h)
  call_order s s' ws waking c' wake e h = ground (arith, e, h)
  call_order s s' ws unlocking c' wake e h = ground (arith, e, h)
  call_order s s' ws joining c' wake e h = ground (arith, e, h)
  call_order s s' ws closed c' wake e h = ground (arith, e, h)

  Step-order : {p q : Pool T} → Step p q → Ordered p.shared → Ordered q.shared
  Step-order (work_step s s' w w' xs ys cs e) h = work_order s s' w w' e h
  Step-order (spurious_step s xs ys cs) h = h
  Step-order (call_step s s' c c' ws xs ys e) h = call_order s s' ws c c' no_one e h
  Step-order (notify_step s s' c c' us vs xs ys e) h =
      call_order s s' (us ++ waiting ∷ vs) c c' one e h
  Step-order (unheard_step s s' c c' ws xs ys e out) h = call_order s s' ws c c' one e h
  Step-order (notify_all_step s s' c c' ws xs ys e) h = call_order s s' ws c c' all e h

  -- The tasks that were pushed have left the queue in the order in which they were pushed, each
  -- taken by one worker or dropped by `close`, but for those that are still in it, in order.
  pub tasks_in_order :
      {n : ℕ} {p : Pool T}
      → Reaches n p
      → p.shared.given ≡ map (λ (g : T × Bool). g.0) p.shared.gone ++ p.shared.tasks
  unfolding construct
  tasks_in_order (reach_start cs h) = refl
  tasks_in_order (reach_step r step) = Step-order step (tasks_in_order r)
