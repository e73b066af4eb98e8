-- ===== src/Pool/Close.antt =====
-- `ThreadPool::close` (ThreadPool.cpp) leaves no worker asleep.
use learn_space.Base.{
  ◌≢◌, ℕ, ◌≤◌, ◌≡◌, refl, ap, true, false, some, List, [], ◌∷◌, ◌++◌, map, All, arith, total,
  total_middle, ◌⊎◌, inl, inr,
}
use learn_space.Pool.{
  pool, Shared, Worker, starting, waiting, woken, testing, ready, running, finished, broken, Client,
  adding, pushing, notifying, returned, closing, swapping, flagging, waking, unlocking, joining,
  closed, Wake, no_one, one, all, work, call, rouse, Awake, Pool, Step, work_step, spurious_step,
  call_step, notify_step, unheard_step, notify_all_step, construct, Reaches, reach_start,
  reach_step,
}
use learn_space.Pool.Exclusion.{List-cases, bit, holds_call, holders, one_holder}

module _ {ℓ} {T : Type ℓ} where
  -- 1 for a worker that sleeps; 1 for a client between the flag and the notification of `close`
  abbrev sleeps : Worker T → ℕ
  sleeps starting = 0
  sleeps waiting = 1
  sleeps woken = 0
  sleeps testing = 0
  sleeps ready = 0
  sleeps (running t) = 0
  sleeps finished = 0
  sleeps broken = 0

  abbrev wakes : Client T → ℕ
  wakes (adding ts everyone) = 0
  wakes (pushing ts everyone) = 0
  wakes (notifying everyone) = 0
  wakes returned = 0
  wakes closing = 0
  wakes swapping = 0
  wakes flagging = 0
  wakes waking = 1
  wakes unlocking = 0
  wakes joining = 0
  wakes closed = 0

  work-sleeps :
      (s s' : Shared T) (w w' : Worker T)
      → work s w ≡ some (s', w')
      → s'.flag ≡ true
      → (s.flag ≡ true) × (sleeps w' ≡ 0)
  unfolding work
  work-sleeps s s' starting w' e f = ground (arith, e, f)
  work-sleeps s s' waiting w' e f = ground (arith, e, f)
  work-sleeps s s' woken w' e f = ground (arith, e, f)
  work-sleeps s s' testing w' e f = ground (arith, e, f)
  work-sleeps s s' ready w' e f = elim (List-cases s.tasks) [
    | inl none_left ↦ ground (arith, e, f, none_left)
    | inr (t, ts, there) ↦ ground (arith, e, f, there)
  ]
  work-sleeps s s' (running t) w' e f = ground (arith, e, f)
  work-sleeps s s' finished w' e f = ground (arith, e, f)
  work-sleeps s s' broken w' e f = ground (arith, e, f)

  -- A step that sets the flag is behind it; one that does not notify all keeps what is to come.
  call-wakes :
      (s s' : Shared T) (ws : List (Worker T)) (c c' : Client T) (wake : Wake)
      → call s ws c ≡ some (s', c', wake)
      → s'.flag ≡ true
      → (1 ≤ wakes c') ⊎ ((s.flag ≡ true) × ((wake ≡ all) ⊎ (wakes c ≤ wakes c')))
  unfolding call
  call-wakes s s' ws (adding ts everyone) c' wake e f = ground (arith, e, f)
  call-wakes s s' ws (pushing [] everyone) c' wake e f = ground (arith, e, f)
  call-wakes s s' ws (pushing (t ∷ ts) everyone) c' wake e f = ground (arith, e, f)
  call-wakes s s' ws (notifying everyone) c' wake e f = ground (arith, e, f)
  call-wakes s s' ws returned c' wake e f = ground (arith, e, f)
  call-wakes s s' ws closing c' wake e f = ground (arith, e, f)
  call-wakes s s' ws swapping c' wake e f = ground (arith, e, f)
  call-wakes s s' ws flagging c' wake e f = ground (arith, e, f)
  call-wakes s s' ws waking c' wake e f = ground (arith, e, f)
  call-wakes s s' ws unlocking c' wake e f = ground (arith, e, f)
  call-wakes s s' ws joining c' wake e f = ground (arith, e, f)
  call-wakes s s' ws closed c' wake e f = ground (arith, e, f)

  -- Once the flag is set, no worker sleeps, or the notification is still to come.
  abbrev Woken : Pool T → Type 0
  Woken p = p.shared.flag ≡ true → (total sleeps p.works ≡ 0) ⊎ (1 ≤ total wakes p.clients)

  total-wake : (ws : List (Worker T)) → total sleeps (map rouse ws) ≡ 0
  total-wake [] = refl
  total-wake (starting ∷ ws) = omega (arith, total-wake ws)
  total-wake (waiting ∷ ws) = omega (arith, total-wake ws)
  total-wake (woken ∷ ws) = omega (arith, total-wake ws)
  total-wake (testing ∷ ws) = omega (arith, total-wake ws)
  total-wake (ready ∷ ws) = omega (arith, total-wake ws)
  total-wake (running t ∷ ws) = omega (arith, total-wake ws)
  total-wake (finished ∷ ws) = omega (arith, total-wake ws)
  total-wake (broken ∷ ws) = omega (arith, total-wake ws)

  -- A step of a client that does not notify all, with `fewer` sleepers after it.
  client-Woken :
      (s s' : Shared T) (ws ws' : List (Worker T)) (c c' : Client T) (xs ys : List (Client T))
      → (1 ≤ wakes c') ⊎ ((s.flag ≡ true) × (wakes c ≤ wakes c'))
      → total sleeps ws' ≤ total sleeps ws
      → Woken (pool s ws (xs ++ c ∷ ys))
      → (total sleeps ws' ≡ 0) ⊎ (1 ≤ total wakes (xs ++ c' ∷ ys))
  client-Woken s s' ws ws' c c' xs ys (inl k) fewer h =
      inr (omega (arith, k, total_middle wakes xs ys c'))
  client-Woken s s' ws ws' c c' xs ys (inr (f, k)) fewer h = elim (h f) [
    | inl asleep ↦ inl (omega (arith, asleep, fewer))
    | inr later ↦
        inr (omega (arith, later, k, total_middle wakes xs ys c, total_middle wakes xs ys c'))
  ]

  not_all :
      (s : Shared T) (c c' : Client T) (wake : Wake)
      → wake ≢ all
      → (1 ≤ wakes c') ⊎ ((s.flag ≡ true) × ((wake ≡ all) ⊎ (wakes c ≤ wakes c')))
      → (1 ≤ wakes c') ⊎ ((s.flag ≡ true) × (wakes c ≤ wakes c'))
  not_all s c c' wake ne (inl k) = inl k
  not_all s c c' wake ne (inr (f, inl same)) = absurd (ne same)
  not_all s c c' wake ne (inr (f, inr k)) = inr (f, k)

  Step-Woken : {p q : Pool T} → Step p q → Woken p → Woken q
  Step-Woken (work_step s s' w w' xs ys cs e) h f =
      let (flag, up) = work-sleeps s s' w w' e f in
      elim (h flag) [
        | inl asleep ↦
            inl
              (omega (arith, asleep, up, total_middle sleeps xs ys w, total_middle sleeps xs ys w'))
        | inr later ↦ inr later
      ]
  Step-Woken (spurious_step s xs ys cs) h f = elim (h f) [
    | inl asleep ↦
        inl (
          omega (arith, asleep, total_middle sleeps xs ys waiting, total_middle sleeps xs ys woken))
    | inr later ↦ inr later
  ]
  Step-Woken (call_step s s' c c' ws xs ys e) h f =
      client-Woken s s' ws ws c c' xs ys
        (not_all s c c' no_one (λ q. absurd (cc q)) (call-wakes s s' ws c c' no_one e f))
        (omega arith) h
  Step-Woken (notify_step s s' c c' us vs xs ys e) h f =
      let ws = us ++ waiting ∷ vs in
      client-Woken s s' ws (us ++ woken ∷ vs) c c' xs ys
        (not_all s c c' one (λ q. absurd (cc q)) (call-wakes s s' ws c c' one e f))
        (omega (arith, total_middle sleeps us vs waiting, total_middle sleeps us vs woken)) h
  Step-Woken (unheard_step s s' c c' ws xs ys e out) h f =
      client-Woken s s' ws ws c c' xs ys
        (not_all s c c' one (λ q. absurd (cc q)) (call-wakes s s' ws c c' one e f)) (omega arith) h
  Step-Woken (notify_all_step s s' c c' ws xs ys e) h f = inl (total-wake ws)

  reach-Woken : {n : ℕ} {p : Pool T} → Reaches n p → Woken p
  unfolding construct
  reach-Woken (reach_start cs h) = λ f. absurd (cc f)
  reach-Woken (reach_step r step) = Step-Woken step (reach-Woken r)

  All-up : (ws : List (Worker T)) → total sleeps ws ≡ 0 → All Awake ws
  All-up [] h = tt
  All-up (starting ∷ ws) h = (refl, All-up ws (omega arith))
  All-up (waiting ∷ ws) h = absurd (omega arith)
  All-up (woken ∷ ws) h = (refl, All-up ws (omega arith))
  All-up (testing ∷ ws) h = (refl, All-up ws (omega arith))
  All-up (ready ∷ ws) h = (refl, All-up ws (omega arith))
  All-up (running t ∷ ws) h = (refl, All-up ws (omega arith))
  All-up (finished ∷ ws) h = (refl, All-up ws (omega arith))
  All-up (broken ∷ ws) h = (refl, All-up ws (omega arith))

  wakes_hold : (cs : List (Client T)) → total wakes cs ≤ total holds_call cs
  wakes_hold [] = omega arith
  wakes_hold (adding ts everyone ∷ cs) = omega (arith, wakes_hold cs)
  wakes_hold (pushing ts everyone ∷ cs) = omega (arith, wakes_hold cs)
  wakes_hold (notifying everyone ∷ cs) = omega (arith, wakes_hold cs)
  wakes_hold (returned ∷ cs) = omega (arith, wakes_hold cs)
  wakes_hold (closing ∷ cs) = omega (arith, wakes_hold cs)
  wakes_hold (swapping ∷ cs) = omega (arith, wakes_hold cs)
  wakes_hold (flagging ∷ cs) = omega (arith, wakes_hold cs)
  wakes_hold (waking ∷ cs) = omega (arith, wakes_hold cs)
  wakes_hold (unlocking ∷ cs) = omega (arith, wakes_hold cs)
  wakes_hold (joining ∷ cs) = omega (arith, wakes_hold cs)
  wakes_hold (closed ∷ cs) = omega (arith, wakes_hold cs)

  -- When `close` has set the flag and given up the mutex, no worker sleeps in `wait`.
  pub none_asleep :
      {n : ℕ} {p : Pool T}
      → Reaches n p
      → p.shared.flag ≡ true
      → p.shared.locked ≡ false
      → All Awake p.works
  unfolding holders
  none_asleep {n} {p} r flag free =
      let none_holds : total holds_call p.clients ≡ 0 = omega (arith, one_holder r, ap bit free) in
      elim (reach-Woken r flag) [
        | inl asleep ↦ All-up p.works asleep
        | inr later ↦ absurd (omega (arith, later, none_holds, wakes_hold p.clients))
      ]
