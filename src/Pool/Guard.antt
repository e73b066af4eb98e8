-- ===== src/Pool/Guard.antt =====
-- A worker of the pool (ThreadPool.cpp) takes from the queue only what is there.
use learn_space.Base.{
  ℕ, zero, suc, ◌+◌, ◌≤◌, ◌≡◌, refl, true, false, some, List, [], ◌∷◌, ◌++◌, map, replicate, All,
  if◌then◌else◌, arith, total, total_middle, ◌⊎◌, inl, inr, All-without, All-insert, All-right,
}
use learn_space.Pool.{
  pool, Shared, Worker, starting, waiting, woken, testing, ready, running, finished, broken, Client,
  adding, pushing, notifying, returned, closing, swapping, flagging, waking, unlocking, joining,
  closed, Wake, no_one, one, all, is_nil, work, call, rouse, Pool, Step, work_step, spurious_step,
  call_step, notify_step, unheard_step, notify_all_step, construct, Reaches, reach_start,
  reach_step,
}
use learn_space.Pool.Exclusion.{bit, holds, holds_call, holders, one_holder, List-cases}

module _ {ℓ} {T : Type ℓ} where
  -- What a worker relies on behind `wait`; that it is not past a `front` of an empty queue.
  abbrev pub Guarded : Shared T → Worker T → Type 0
  Guarded s starting = Unit
  Guarded s waiting = Unit
  Guarded s woken = Unit
  Guarded s testing = Unit
  Guarded s ready = (if is_nil s.tasks then s.flag else true) ≡ true
  Guarded s (running t) = Unit
  Guarded s finished = s.flag ≡ true
  Guarded s broken = true ≡ false

  -- A step of a thread that has not the mutex leaves the queue; none takes the flag back.
  abbrev Keeps : ℕ → Shared T → Shared T → Type ℓ
  Keeps held s s' = ((held ≡ 1) ⊎ (s.tasks ≡ s'.tasks)) × (s.flag ≡ true → s'.flag ≡ true)

  work-Guarded :
      (s s' : Shared T) (w w' : Worker T) → work s w ≡ some (s', w') → Guarded s w → Guarded s' w'
  unfolding work
  work-Guarded s s' starting w' e h = ground (arith, e, h)
  work-Guarded s s' waiting w' e h = ground (arith, e, h)
  work-Guarded s s' woken w' e h = ground (arith, e, h)
  work-Guarded s s' testing w' e h = ground (arith, e, h)
  work-Guarded s s' ready w' e h = elim (List-cases s.tasks) [
    | inl none_left ↦ ground (arith, e, h, none_left)
    | inr (t, ts, there) ↦ ground (arith, e, h, there)
  ]
  work-Guarded s s' (running t) w' e h = ground (arith, e, h)
  work-Guarded s s' finished w' e h = ground (arith, e, h)
  work-Guarded s s' broken w' e h = ground (arith, e, h)

  work-Keeps : (s s' : Shared T) (w w' : Worker T) → work s w ≡ some (s', w') → Keeps (holds w) s s'
  unfolding work
  work-Keeps s s' starting w' e = (inr (ground (arith, e)), λ f. ground (arith, e, f))
  work-Keeps s s' waiting w' e = (inr (ground (arith, e)), λ f. ground (arith, e, f))
  work-Keeps s s' woken w' e = (inr (ground (arith, e)), λ f. ground (arith, e, f))
  work-Keeps s s' testing w' e = (inl refl, λ f. ground (arith, e, f))
  work-Keeps s s' ready w' e = elim (List-cases s.tasks) [
    | inl none_left ↦ (inl refl, λ f. ground (arith, e, f, none_left))
    | inr (t, ts, there) ↦ (inl refl, λ f. ground (arith, e, f, there))
  ]
  work-Keeps s s' (running t) w' e = (inr (ground (arith, e)), λ f. ground (arith, e, f))
  work-Keeps s s' finished w' e = (inr (ground (arith, e)), λ f. ground (arith, e, f))
  work-Keeps s s' broken w' e = (inl refl, λ f. ground (arith, e, f))

  call-Keeps :
      (s s' : Shared T) (ws : List (Worker T)) (c c' : Client T) (wake : Wake)
      → call s ws c ≡ some (s', c', wake)
      → Keeps (holds_call c) s s'
  unfolding call
  call-Keeps s s' ws (adding ts everyone) c' wake e =
      (inr (ground (arith, e)), λ f. ground (arith, e, f))
  call-Keeps s s' ws (pushing [] everyone) c' wake e = (inl refl, λ f. ground (arith, e, f))
  call-Keeps s s' ws (pushing (t ∷ ts) everyone) c' wake e = (inl refl, λ f. ground (arith, e, f))
  call-Keeps s s' ws (notifying everyone) c' wake e =
      (inr (ground (arith, e)), λ f. ground (arith, e, f))
  call-Keeps s s' ws returned c' wake e = (inr (ground (arith, e)), λ f. ground (arith, e, f))
  call-Keeps s s' ws closing c' wake e = (inr (ground (arith, e)), λ f. ground (arith, e, f))
  call-Keeps s s' ws swapping c' wake e = (inl refl, λ f. ground (arith, e, f))
  call-Keeps s s' ws flagging c' wake e = (inl refl, λ f. ground (arith, e, f))
  call-Keeps s s' ws waking c' wake e = (inl refl, λ f. ground (arith, e, f))
  call-Keeps s s' ws unlocking c' wake e = (inl refl, λ f. ground (arith, e, f))
  call-Keeps s s' ws joining c' wake e = (inr (ground (arith, e)), λ f. ground (arith, e, f))
  call-Keeps s s' ws closed c' wake e = (inr (ground (arith, e)), λ f. ground (arith, e, f))

  -- A worker that does not step, beside one thread that did.
  kept :
      (s s' : Shared T) (held : ℕ) (w : Worker T)
      → Keeps held s s'
      → held + holds w ≤ 1
      → Guarded s w
      → Guarded s' w
  kept s s' held starting k few h = tt
  kept s s' held waiting k few h = tt
  kept s s' held woken k few h = tt
  kept s s' held testing k few h = tt
  kept s s' held ready (inl owns, up) few h = absurd (omega (arith, owns, few))
  kept s s' held ready (inr same, up) few h = ground (arith, same, up, h)
  kept s s' held (running t) k few h = tt
  kept s s' held finished k few h = k.1 h
  kept s s' held broken k few h = h

  All-kept :
      (s s' : Shared T) (held : ℕ) (ws : List (Worker T))
      → Keeps held s s'
      → held + total holds ws ≤ 1
      → All (Guarded s) ws
      → All (Guarded s') ws
  All-kept s s' held [] k few h = tt
  All-kept s s' held (w ∷ ws) k few h = (
    kept s s' held w k (omega (arith, few)) h.0,
    All-kept s s' held ws k (omega (arith, few)) h.1,
  )

  rouse-Guarded :
      (s : Shared T) (ws : List (Worker T)) → All (Guarded s) ws → All (Guarded s) (map rouse ws)
  rouse-Guarded s [] h = tt
  rouse-Guarded s (starting ∷ ws) h = (tt, rouse-Guarded s ws h.1)
  rouse-Guarded s (waiting ∷ ws) h = (tt, rouse-Guarded s ws h.1)
  rouse-Guarded s (woken ∷ ws) h = (tt, rouse-Guarded s ws h.1)
  rouse-Guarded s (testing ∷ ws) h = (tt, rouse-Guarded s ws h.1)
  rouse-Guarded s (ready ∷ ws) h = (h.0, rouse-Guarded s ws h.1)
  rouse-Guarded s (running t ∷ ws) h = (tt, rouse-Guarded s ws h.1)
  rouse-Guarded s (finished ∷ ws) h = (h.0, rouse-Guarded s ws h.1)
  rouse-Guarded s (broken ∷ ws) h = (h.0, rouse-Guarded s ws h.1)

  All-call :
      (s s' : Shared T) (ws : List (Worker T)) (c c' : Client T) (wake : Wake)
      (xs ys : List (Client T))
      → call s ws c ≡ some (s', c', wake)
      → holders (pool s ws (xs ++ c ∷ ys)) ≤ 1
      → All (Guarded s) ws
      → All (Guarded s') ws
  unfolding holders
  All-call s s' ws c c' wake xs ys e few h =
      All-kept s s' (holds_call c) ws (call-Keeps s s' ws c c' wake e)
        (omega (arith, few, total_middle holds_call xs ys c)) h

  one_left :
      (s : Shared T) (xs ys : List (Worker T)) (w : Worker T) (cs : List (Client T))
      → holders (pool s (xs ++ w ∷ ys) cs) ≤ 1
      → holds w + total holds (xs ++ ys) ≤ 1
  unfolding holders
  one_left s xs ys w cs few = omega (arith, few, total_middle holds xs ys w)

  Step-Guarded :
      {p q : Pool T}
      → Step p q
      → holders p ≤ 1
      → All (Guarded p.shared) p.works
      → All (Guarded q.shared) q.works
  Step-Guarded (work_step s s' w w' xs ys cs e) few h =
      let own = (All-right (Guarded s) xs (w ∷ ys) h).0 in
      let others =
        All-kept s s' (holds w) (xs ++ ys) (work-Keeps s s' w w' e) (one_left s xs ys w cs few)
          (All-without (Guarded s) xs ys w h) in
      All-insert (Guarded s') xs ys w' (work-Guarded s s' w w' e own) others
  Step-Guarded (spurious_step s xs ys cs) few h =
      All-insert (Guarded s) xs ys woken tt (All-without (Guarded s) xs ys waiting h)
  Step-Guarded (call_step s s' c c' ws xs ys e) few h = All-call s s' ws c c' no_one xs ys e few h
  Step-Guarded (notify_step s s' c c' us vs xs ys e) few h =
      All-insert (Guarded s') us vs woken tt (
        All-without (Guarded s') us vs waiting
          (All-call s s' (us ++ waiting ∷ vs) c c' one xs ys e few h))
  Step-Guarded (unheard_step s s' c c' ws xs ys e out) few h =
      All-call s s' ws c c' one xs ys e few h
  Step-Guarded (notify_all_step s s' c c' ws xs ys e) few h =
      rouse-Guarded s' ws (All-call s s' ws c c' all xs ys e few h)

  start-Guarded : (s : Shared T) (n : ℕ) → All (Guarded s) (replicate n starting)
  start-Guarded s zero = tt
  start-Guarded s (suc n) = (tt, start-Guarded s n)

  -- A worker that is past the predicate of `wait` finds a task, or the flag of `close`; none takes
  -- the front of an empty queue; and one that has returned did so after `close` set the flag.
  pub workers-Guarded : {n : ℕ} {p : Pool T} → Reaches n p → All (Guarded p.shared) p.works
  unfolding construct
  workers-Guarded {n} (reach_start cs h) =
      start-Guarded (record { tasks = []; flag = false; locked = false; given = []; gone = [] }) n
  workers-Guarded (reach_step {p} r step) =
      Step-Guarded step (bounded p (one_holder r)) (workers-Guarded r)
    where
      bounded : (p : Pool T) → holders p ≡ bit p.shared.locked → holders p ≤ 1
      bounded p e = ground (arith, e)
