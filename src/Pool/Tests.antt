-- ===== src/Pool/Tests.antt =====
-- A pool of two workers (ThreadPool.cpp), on which its theorems are used.
use learn_space.Base.{
  ℕ, ◌+◌, ◌≤◌, ◌≡◌, refl, Bool, true, false, List, [], ◌∷◌, ◌++◌, map, All, total, ◌⊎◌,
}
use learn_space.Pool.{
  pool, Shared, Worker, starting, adding, pushing, closing, swapping, flagging, waking, unlocking,
  joining, is_nil, call, Pool, call_step, notify_all_step, add_begins, close_begins, construct,
  Reaches, reach_start, reach_step,
}
use learn_space.Pool.Exclusion.{holders, one_holder}
use learn_space.Pool.Order.{tasks_in_order}
use learn_space.Pool.Guard.{Guarded, workers-Guarded}
use learn_space.Pool.Wakeups.{awake, pending, tasks_watched}
use learn_space.Pool.Progress.{Proceeds, close_progress}

abbrev none_given : Shared ℕ
none_given = record { tasks = []; flag = false; locked = false; given = []; gone = [] }

abbrev one_given : Shared ℕ
one_given = record { tasks = 5 ∷ []; flag = false; locked = true; given = 5 ∷ []; gone = [] }

-- Task 5 is in the queue, and its `addTask` has the mutex.
abbrev filled : Pool ℕ
filled = pool one_given (starting ∷ starting ∷ []) (pushing [] false ∷ closing ∷ [])

filled-Reaches : Reaches 2 filled
unfolding construct call
filled-Reaches =
    let p0 : Reaches 2 (construct 2 (adding (5 ∷ []) false ∷ closing ∷ [])) =
      reach_start (adding (5 ∷ []) false ∷ closing ∷ [])
        (add_begins (5 ∷ []) false, (close_begins, tt)) in
    let p1 : Reaches 2 (
        pool (record none_given { locked = true }) (starting ∷ starting ∷ [])
          (pushing (5 ∷ []) false ∷ closing ∷ [])) =
      reach_step p0 (call_step _ _ _ _ (starting ∷ starting ∷ []) [] (closing ∷ []) refl) in
    reach_step p1 (call_step _ _ _ _ (starting ∷ starting ∷ []) [] (closing ∷ []) refl)

one_holder_example : holders filled ≡ 1
one_holder_example = one_holder filled-Reaches

tasks_in_order_example :
    one_given.given ≡ map (λ (g : ℕ × Bool). g.0) one_given.gone ++ one_given.tasks
tasks_in_order_example = tasks_in_order filled-Reaches

workers-Guarded_example : All (Guarded one_given) (starting ∷ starting ∷ [])
workers-Guarded_example = workers-Guarded filled-Reaches

tasks_watched_example :
    ((is_nil one_given.tasks ≡ true) ⊎ (one_given.flag ≡ true))
    ⊎ (1 ≤ total awake filled.works + total pending filled.clients)
tasks_watched_example = tasks_watched filled-Reaches

abbrev flagged : Shared ℕ
flagged = record none_given { flag = true }

-- `close` waits for two workers that have not begun.
abbrev shut : Pool ℕ
shut = pool flagged (starting ∷ starting ∷ []) (joining ∷ [])

shut-Reaches : Reaches 2 shut
unfolding construct call
shut-Reaches =
    let ws : List (Worker ℕ) = starting ∷ starting ∷ [] in
    let p0 : Reaches 2 (construct 2 (closing ∷ [])) =
      reach_start (closing ∷ []) (close_begins, tt) in
    let p1 : Reaches 2 (pool (record none_given { locked = true }) ws (swapping ∷ [])) =
      reach_step p0 (call_step _ _ _ _ ws [] [] refl) in
    let p2 : Reaches 2 (pool (record none_given { locked = true }) ws (flagging ∷ [])) =
      reach_step p1 (call_step _ _ _ _ ws [] [] refl) in
    let p3 : Reaches 2 (pool (record flagged { locked = true }) ws (waking ∷ [])) =
      reach_step p2 (call_step _ _ _ _ ws [] [] refl) in
    let p4 : Reaches 2 (pool (record flagged { locked = true }) ws (unlocking ∷ [])) =
      reach_step p3 (notify_all_step _ _ _ _ ws [] [] refl) in
    reach_step p4 (call_step _ _ _ _ ws [] [] refl)

close_progress_example : Proceeds shut
close_progress_example = close_progress shut-Reaches refl refl
