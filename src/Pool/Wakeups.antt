-- ===== src/Pool/Wakeups.antt =====
-- Notifications of the pool (ThreadPool.cpp): a task in the queue is not left to sleeping workers.
use learn_space.Base.{
  ℕ, suc, ◌+◌, ◌≤◌, ◌≡◌, refl, ap, sym, ◌∙◌, true, some, List, [], ◌∷◌, ◌++◌, map, All, arith,
  total, total_middle, ◌⊎◌, inl, inr, length, length-append, length-replicate, length-map,
}
use learn_space.Pool.{
  Shared, Worker, starting, waiting, woken, testing, ready, running, finished, broken, Client,
  adding, pushing, notifying, returned, closing, swapping, flagging, waking, unlocking, joining,
  closed, no_one, is_nil, work, call, rouse, Awake, Pool, Step, work_step, spurious_step, call_step,
  notify_step, unheard_step, notify_all_step, construct, Reaches, reach_start, reach_step,
}
use learn_space.Pool.Exclusion.{List-cases}
use learn_space.Pool.Guard.{Guarded, workers-Guarded}

module _ {ℓ} {T : Type ℓ} where
  Step-length : {p q : Pool T} → Step p q → length q.works ≡ length p.works
  Step-length (work_step s s' w w' xs ys cs e) =
      omega (arith, length-append xs (w ∷ ys), length-append xs (w' ∷ ys))
  Step-length (spurious_step s xs ys cs) =
      omega (arith, length-append xs (waiting ∷ ys), length-append xs (woken ∷ ys))
  Step-length (call_step s s' c c' ws xs ys e) = refl
  Step-length (notify_step s s' c c' us vs xs ys e) =
      omega (arith, length-append us (waiting ∷ vs), length-append us (woken ∷ vs))
  Step-length (unheard_step s s' c c' ws xs ys e out) = refl
  Step-length (notify_all_step s s' c c' ws xs ys e) = length-map rouse ws

  pub works_length : {n : ℕ} {p : Pool T} → Reaches n p → length p.works ≡ n
  unfolding construct
  works_length {n} (reach_start cs h) = length-replicate n starting
  works_length (reach_step r step) = Step-length step ∙ works_length r

  -- 1 for a worker that will come to the predicate of `wait` again
  abbrev pub awake : Worker T → ℕ
  awake starting = 1
  awake waiting = 0
  awake woken = 1
  awake testing = 1
  awake ready = 1
  awake (running t) = 1
  awake finished = 0
  awake broken = 0

  -- 1 for a client that will notify
  abbrev pub pending : Client T → ℕ
  pending (adding ts everyone) = 0
  pending (pushing ts everyone) = 1
  pending (notifying everyone) = 1
  pending returned = 0
  pending closing = 0
  pending swapping = 0
  pending flagging = 0
  pending waking = 0
  pending unlocking = 0
  pending joining = 0
  pending closed = 0

  -- Nothing is left to do for a worker that sleeps.
  abbrev pub Quiet : Shared T → Type 0
  Quiet s = (is_nil s.tasks ≡ true) ⊎ (s.flag ≡ true)

  abbrev pub Watched : Shared T → List (Worker T) → List (Client T) → Type 0
  Watched s ws cs = Quiet s ⊎ (1 ≤ total awake ws + total pending cs)

  work_watched :
      (s s' : Shared T) (w w' : Worker T) → work s w ≡ some (s', w') → Quiet s' ⊎ (1 ≤ awake w')
  unfolding work
  work_watched s s' starting w' e = ground (arith, e)
  work_watched s s' waiting w' e = ground (arith, e)
  work_watched s s' woken w' e = ground (arith, e)
  work_watched s s' testing w' e = ground (arith, e)
  work_watched s s' ready w' e = elim (List-cases s.tasks) [
    | inl none_left ↦ ground (arith, e, none_left)
    | inr (t, ts, there) ↦ ground (arith, e, there)
  ]
  work_watched s s' (running t) w' e = ground (arith, e)
  work_watched s s' finished w' e = ground (arith, e)
  work_watched s s' broken w' e = ground (arith, e)

  call_watched :
      (s s' : Shared T) (ws : List (Worker T)) (c c' : Client T)
      → call s ws c ≡ some (s', c', no_one)
      → (Quiet s' ⊎ (1 ≤ pending c'))
        ⊎ ((s.tasks ≡ s'.tasks) × (s.flag ≡ s'.flag) × (pending c ≤ pending c'))
  unfolding call
  call_watched s s' ws (adding ts everyone) c' e = ground (arith, e)
  call_watched s s' ws (pushing [] everyone) c' e = ground (arith, e)
  call_watched s s' ws (pushing (t ∷ ts) everyone) c' e = ground (arith, e)
  call_watched s s' ws (notifying everyone) c' e = ground (arith, e)
  call_watched s s' ws returned c' e = ground (arith, e)
  call_watched s s' ws closing c' e = ground (arith, e)
  call_watched s s' ws swapping c' e = ground (arith, e)
  call_watched s s' ws flagging c' e = ground (arith, e)
  call_watched s s' ws waking c' e = ground (arith, e)
  call_watched s s' ws unlocking c' e = ground (arith, e)
  call_watched s s' ws joining c' e = ground (arith, e)
  call_watched s s' ws closed c' e = ground (arith, e)

  -- Where no worker sleeps there is one that does not, or all have returned.
  one_awake :
      (s : Shared T) (ws : List (Worker T))
      → 1 ≤ length ws
      → All Awake ws
      → All (Guarded s) ws
      → Quiet s ⊎ (1 ≤ total awake ws)
  one_awake s [] n up h = absurd (omega arith)
  one_awake s (starting ∷ ws) n up h = inr (omega arith)
  one_awake s (waiting ∷ ws) n up h = absurd (cc (up.0))
  one_awake s (woken ∷ ws) n up h = inr (omega arith)
  one_awake s (testing ∷ ws) n up h = inr (omega arith)
  one_awake s (ready ∷ ws) n up h = inr (omega arith)
  one_awake s (running t ∷ ws) n up h = inr (omega arith)
  one_awake s (finished ∷ ws) n up h = inl (inr h.0)
  one_awake s (broken ∷ ws) n up h = absurd (cc (h.0))

  rouse-Awake : (ws : List (Worker T)) → All Awake (map rouse ws)
  rouse-Awake [] = tt
  rouse-Awake (starting ∷ ws) = (refl, rouse-Awake ws)
  rouse-Awake (waiting ∷ ws) = (refl, rouse-Awake ws)
  rouse-Awake (woken ∷ ws) = (refl, rouse-Awake ws)
  rouse-Awake (testing ∷ ws) = (refl, rouse-Awake ws)
  rouse-Awake (ready ∷ ws) = (refl, rouse-Awake ws)
  rouse-Awake (running t ∷ ws) = (refl, rouse-Awake ws)
  rouse-Awake (finished ∷ ws) = (refl, rouse-Awake ws)
  rouse-Awake (broken ∷ ws) = (refl, rouse-Awake ws)

  abbrev WatchedPool : Pool T → Type 0
  WatchedPool p = Watched p.shared p.works p.clients

  more : (s : Shared T) (m n : ℕ) → m ≤ n → Quiet s ⊎ (1 ≤ m) → Quiet s ⊎ (1 ≤ n)
  more s m n h (inl quiet) = inl quiet
  more s m n h (inr k) = inr (omega (arith, h, k))

  Step-watched :
      {p q : Pool T}
      → Step p q
      → 1 ≤ length q.works
      → All (Guarded q.shared) q.works
      → WatchedPool p
      → WatchedPool q
  Step-watched (work_step s s' w w' xs ys cs e) n g h =
      more s' (awake w') (total awake (xs ++ w' ∷ ys) + total pending cs)
        (omega (arith, total_middle awake xs ys w')) (work_watched s s' w w' e)
  Step-watched (spurious_step s xs ys cs) n g h =
      inr (omega (arith, total_middle awake xs ys woken))
  Step-watched (call_step s s' c c' ws xs ys e) n g h =
      let before = total_middle pending xs ys c in
      let after = total_middle pending xs ys c' in
      elim (call_watched s s' ws c c' e) [
        | inl here ↦
            more s' (pending c') (total awake ws + total pending (xs ++ c' ∷ ys))
              (omega (arith, after)) here
        | inr (tasks, flag, no_less) ↦ elim h [
          | inl (inl none_left) ↦ inl (inl (ap is_nil (sym tasks) ∙ none_left))
          | inl (inr up) ↦ inl (inr (sym flag ∙ up))
          | inr k ↦ inr (omega (arith, k, before, after, no_less))
        ]
      ]
  Step-watched (notify_step s s' c c' us vs xs ys e) n g h =
      inr (omega (arith, total_middle awake us vs woken))
  Step-watched (unheard_step s s' c c' ws xs ys e up) n g h =
      more s' (total awake ws) (total awake ws + total pending (xs ++ c' ∷ ys)) (omega arith)
        (one_awake s' ws n up g)
  Step-watched (notify_all_step s s' c c' ws xs ys e) n g h =
      more s' (total awake (map rouse ws))
        (total awake (map rouse ws) + total pending (xs ++ c' ∷ ys)) (omega arith)
        (one_awake s' (map rouse ws) n (rouse-Awake ws) g)

  -- With a worker at all, while there is a task in the queue and `close` has not set the flag, a
  -- worker is awake, or a client will still notify.
  pub tasks_watched :
      {n : ℕ} {p : Pool T}
      → Reaches (suc n) p
      → ((is_nil p.shared.tasks ≡ true) ⊎ (p.shared.flag ≡ true))
        ⊎ (1 ≤ total awake p.works + total pending p.clients)
  unfolding construct
  tasks_watched (reach_start cs h) = inl (inl refl)
  tasks_watched (reach_step r step) =
      Step-watched step (omega (arith, works_length (reach_step r step)))
        (workers-Guarded (reach_step r step)) (tasks_watched r)
