-- ===== src/Pool/Exclusion.antt =====
-- The mutex of the pool (ThreadPool.cpp).
use learn_space.Base.{
  ℕ, zero, suc, ◌+◌, ◌≤◌, ◌≡◌, refl, sym, Bool, true, false, some, List, [], ◌∷◌, ◌++◌, map,
  replicate, All, arith, total, total_middle, ◌⊎◌, inl, inr,
}
use learn_space.Pool.{
  Shared, Worker, starting, waiting, woken, testing, ready, running, finished, broken, Client,
  adding, pushing, notifying, returned, closing, swapping, flagging, waking, unlocking, joining,
  closed, Wake, no_one, one, all, work, call, rouse, Pool, Step, work_step, spurious_step,
  call_step, notify_step, unheard_step, notify_all_step, Begins, add_begins, close_begins,
  construct, Reaches, reach_start, reach_step,
}

abbrev pub bit : Bool → ℕ
bit true = 1
bit false = 0

module _ {ℓ} {T : Type ℓ} where
  -- 1 for a thread that has the mutex
  abbrev pub holds : Worker T → ℕ
  holds starting = 0
  holds waiting = 0
  holds woken = 0
  holds testing = 1
  holds ready = 1
  holds (running t) = 0
  holds finished = 0
  holds broken = 1

  abbrev pub holds_call : Client T → ℕ
  holds_call (adding ts everyone) = 0
  holds_call (pushing ts everyone) = 1
  holds_call (notifying everyone) = 0
  holds_call returned = 0
  holds_call closing = 0
  holds_call swapping = 1
  holds_call flagging = 1
  holds_call waking = 1
  holds_call unlocking = 1
  holds_call joining = 0
  holds_call closed = 0

  pub List-cases : (ts : List T) → (ts ≡ []) ⊎ ((u : T) × (us : List T) × (ts ≡ u ∷ us))
  List-cases [] = inl refl
  List-cases (u ∷ us) = inr (u, us, refl)

  work_holds :
      (s s' : Shared T) (w w' : Worker T)
      → work s w ≡ some (s', w')
      → holds w ≤ bit s.locked
      → bit s'.locked + holds w ≡ bit s.locked + holds w'
  unfolding work
  work_holds s s' starting w' e h = ground (arith, e)
  work_holds s s' waiting w' e h = ground (arith, e)
  work_holds s s' woken w' e h = ground (arith, e)
  work_holds s s' testing w' e h = ground (arith, e)
  work_holds s s' ready w' e h = elim (List-cases s.tasks) [
    | inl none_left ↦ ground (arith, e, none_left)
    | inr (t, ts, there) ↦ ground (arith, e, there)
  ]
  work_holds s s' (running t) w' e h = ground (arith, e)
  work_holds s s' finished w' e h = ground (arith, e)
  work_holds s s' broken w' e h = ground (arith, e)

  call_holds :
      (s s' : Shared T) (ws : List (Worker T)) (c c' : Client T) (wake : Wake)
      → call s ws c ≡ some (s', c', wake)
      → holds_call c ≤ bit s.locked
      → bit s'.locked + holds_call c ≡ bit s.locked + holds_call c'
  unfolding call
  call_holds s s' ws (adding ts everyone) c' wake e h = ground (arith, e)
  call_holds s s' ws (pushing [] everyone) c' wake e h = ground (arith, e)
  call_holds s s' ws (pushing (t ∷ ts) everyone) c' wake e h = ground (arith, e)
  call_holds s s' ws (notifying everyone) c' wake e h = ground (arith, e)
  call_holds s s' ws returned c' wake e h = ground (arith, e)
  call_holds s s' ws closing c' wake e h = ground (arith, e)
  call_holds s s' ws swapping c' wake e h = ground (arith, e)
  call_holds s s' ws flagging c' wake e h = ground (arith, e)
  call_holds s s' ws waking c' wake e h = ground (arith, e)
  call_holds s s' ws unlocking c' wake e h = ground (arith, e)
  call_holds s s' ws joining c' wake e h = ground (arith, e)
  call_holds s s' ws closed c' wake e h = ground (arith, e)

total_start {ℓ} : (T : Type ℓ) (n : ℕ) → total (holds {T = T}) (replicate n starting) ≡ 0
total_start T zero = refl
total_start T (suc n) = omega (arith, total_start T n)

module _ {ℓ} {T : Type ℓ} where
  -- The threads that have the mutex.
  unfoldable pub holders : Pool T → ℕ
  holders p = total holds p.works + total holds_call p.clients

  rouse_holds : (w : Worker T) → holds (rouse w) ≡ holds w
  rouse_holds starting = refl
  rouse_holds waiting = refl
  rouse_holds woken = refl
  rouse_holds testing = refl
  rouse_holds ready = refl
  rouse_holds (running t) = refl
  rouse_holds finished = refl
  rouse_holds broken = refl

  total-rouse : (ws : List (Worker T)) → total holds (map rouse ws) ≡ total holds ws
  total-rouse [] = refl
  total-rouse (w ∷ ws) = omega (arith, rouse_holds w, total-rouse ws)

  total_begin : (cs : List (Client T)) → All Begins cs → total holds_call cs ≡ 0
  total_begin [] h = refl
  total_begin (c ∷ cs) (add_begins ts everyone, h) = omega (arith, total_begin cs h)
  total_begin (c ∷ cs) (close_begins, h) = omega (arith, total_begin cs h)

  Step-holders :
      {p q : Pool T} → Step p q → bit p.shared.locked ≡ holders p → bit q.shared.locked ≡ holders q
  unfolding holders
  Step-holders (work_step s s' w w' xs ys cs e) h =
      let before = total_middle holds xs ys w in
      let after = total_middle holds xs ys w' in
      let local = work_holds s s' w w' e (omega (arith, h, before)) in
      omega (arith, h, before, after, local)
  Step-holders (spurious_step s xs ys cs) h =
      omega (arith, h, total_middle holds xs ys waiting, total_middle holds xs ys woken)
  Step-holders (call_step s s' c c' ws xs ys e) h =
      let before = total_middle holds_call xs ys c in
      let after = total_middle holds_call xs ys c' in
      let local = call_holds s s' ws c c' no_one e (omega (arith, h, before)) in
      omega (arith, h, before, after, local)
  Step-holders (notify_step s s' c c' us vs xs ys e) h =
      let before = total_middle holds_call xs ys c in
      let after = total_middle holds_call xs ys c' in
      let local = call_holds s s' (us ++ waiting ∷ vs) c c' one e (omega (arith, h, before)) in
      omega (
        arith,
        h,
        before,
        after,
        local,
        total_middle holds us vs waiting,
        total_middle holds us vs woken,
      )
  Step-holders (unheard_step s s' c c' ws xs ys e out) h =
      let before = total_middle holds_call xs ys c in
      let after = total_middle holds_call xs ys c' in
      let local = call_holds s s' ws c c' one e (omega (arith, h, before)) in
      omega (arith, h, before, after, local)
  Step-holders (notify_all_step s s' c c' ws xs ys e) h =
      let before = total_middle holds_call xs ys c in
      let after = total_middle holds_call xs ys c' in
      let local = call_holds s s' ws c c' all e (omega (arith, h, before)) in
      omega (arith, h, before, after, local, total-rouse ws)

  -- The mutex is locked exactly when a thread has it, and no two threads have it at a time.
  pub one_holder : {n : ℕ} {p : Pool T} → Reaches n p → holders p ≡ bit p.shared.locked
  unfolding construct holders
  one_holder {n} (reach_start cs h) = omega (arith, total_start T n, total_begin cs h)
  one_holder (reach_step r step) = sym (Step-holders step (sym (one_holder r)))
