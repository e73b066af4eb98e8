-- ===== src/Pool.antt =====
-- ThreadPool/ThreadPool.h and ThreadPool/ThreadPool.cpp: `ThreadPool`, its `ThreadWork` threads,
-- and the threads that call it.
-- A thread is what it has still to do, a state of `Worker` or `Client`; a step of a thread is one
-- access of the mutex, of the condition variable, or of what the mutex guards. `std::mutex` is a
-- bit, which a thread that locks it waits for; `wait` gives it up together with falling asleep,
-- and a thread that is woken, by a notification or for no reason, locks it again. A task is what
-- identifies it; its `doRun` is taken to return.
pub mod Exclusion
pub mod Order
pub mod Guard
pub mod Wakeups
pub mod Close
pub mod Progress
mod Tests
use learn_space.Base.{
  ℕ, Bool, true, false, ◌&&◌, Option, none, some, List, [], ◌∷◌, ◌++◌, ◌≡◌, map, replicate, All,
  if◌then◌else◌, ◌==◌,
}

-- What the threads share. The history: `given` are the tasks that were pushed to the queue, in
-- order, and `gone` those that left it, `true` for one that a worker took.
pub record Shared {ℓ} (T : Type ℓ) : Type ℓ where
  pub tasks : List T
  pub flag : Bool
  pub locked : Bool
  pub given : List T
  pub gone : List (T × Bool)

-- `ThreadWork::doRun`: before the mutex is locked; asleep in `wait`; woken there; at the predicate
-- of `wait`; behind `wait`; in `doRun` of a task; returned. `broken` is behind a `front` of an
-- empty queue, which is undefined.
pub data Worker {ℓ} (T : Type ℓ) : Type ℓ where
  starting : Worker T
  waiting : Worker T
  woken : Worker T
  testing : Worker T
  ready : Worker T
  running : T → Worker T
  finished : Worker T
  broken : Worker T

-- `addTask` before and behind its `lock`, with the tasks it has still to push, and at its
-- notification, of one worker or of `everyone`; `close` before each of its statements.
pub data Client {ℓ} (T : Type ℓ) : Type ℓ where
  adding : List T → Bool → Client T
  pushing : List T → Bool → Client T
  notifying : Bool → Client T
  returned : Client T
  closing : Client T
  swapping : Client T
  flagging : Client T
  waking : Client T
  unlocking : Client T
  joining : Client T
  closed : Client T

-- What a step of a client does to the workers that are asleep.
pub data Wake : Type 0 where
  no_one : Wake
  one : Wake
  all : Wake

module _ {ℓ} {T : Type ℓ} where
  abbrev pub is_nil : List T → Bool
  is_nil [] = true
  is_nil (t ∷ ts) = false

  abbrev pub lock : Shared T → Shared T
  lock s = record s { locked = true }

  abbrev pub unlock : Shared T → Shared T
  unlock s = record s { locked = false }

  -- `addTask(const TaskPtr&)` and `addTask(const std::vector<TaskPtr>&)`
  unfoldable pub add_task : T → Client T
  add_task t = adding (t ∷ []) false

  unfoldable pub add_tasks : List T → Client T
  add_tasks ts = adding ts true

  -- A step of a worker; `none` if it cannot go on.
  unfoldable pub work : Shared T → Worker T → Option (Shared T × Worker T)
  work s starting = if s.locked then none else some (lock s, testing)
  work s waiting = none
  work s woken = if s.locked then none else some (lock s, testing)
  work s testing =
      if is_nil s.tasks && (if s.flag then false else true)
      then some (unlock s, waiting)
      else some (s, ready)
  work s ready = if is_nil s.tasks && s.flag then some (unlock s, finished) else elim s.tasks [
    | [] ↦ some (s, broken)
    | t ∷ ts ↦
        some (record s { tasks = ts; locked = false; gone = s.gone ++ (t, true) ∷ [] }, running t)
  ]
  work s (running t) = some (s, starting)
  work s finished = none
  work s broken = none

  abbrev pub is_finished : Worker T → Bool
  is_finished starting = false
  is_finished waiting = false
  is_finished woken = false
  is_finished testing = false
  is_finished ready = false
  is_finished (running t) = false
  is_finished finished = true
  is_finished broken = false

  abbrev pub all_finished : List (Worker T) → Bool
  all_finished [] = true
  all_finished (w ∷ ws) = is_finished w && all_finished ws

  -- A step of a client; `none` if it cannot go on.
  unfoldable pub call : Shared T → List (Worker T) → Client T → Option (Shared T × Client T × Wake)
  call s ws (adding ts everyone) =
      if s.locked then none else some (lock s, pushing ts everyone, no_one)
  call s ws (pushing [] everyone) = some (unlock s, notifying everyone, no_one)
  call s ws (pushing (t ∷ ts) everyone) = some (
    record s { tasks = s.tasks ++ t ∷ []; given = s.given ++ t ∷ [] },
    pushing ts everyone,
    no_one,
  )
  call s ws (notifying everyone) = some (s, returned, if everyone then all else one)
  call s ws returned = none
  call s ws closing = if s.locked then none else some (lock s, swapping, no_one)
  call s ws swapping =
      some
        (record s { tasks = []; gone = s.gone ++ map (λ t. (t, false)) s.tasks }, flagging, no_one)
  call s ws flagging = some (record s { flag = true }, waking, no_one)
  call s ws waking = some (s, unlocking, all)
  call s ws unlocking = some (unlock s, joining, no_one)
  call s ws joining = if all_finished ws then some (s, closed, no_one) else none
  call s ws closed = none

  -- `notify_all`
  abbrev pub rouse : Worker T → Worker T
  rouse starting = starting
  rouse waiting = woken
  rouse woken = woken
  rouse testing = testing
  rouse ready = ready
  rouse (running t) = running t
  rouse finished = finished
  rouse broken = broken

  abbrev pub Awake : Worker T → Type ℓ
  Awake w = rouse w ≡ w

pub record Pool {ℓ} (T : Type ℓ) : Type ℓ where
  pub shared : Shared T
  pub works : List (Worker T)
  pub clients : List (Client T)

module _ {ℓ} {T : Type ℓ} where
  abbrev pub pool : Shared T → List (Worker T) → List (Client T) → Pool T
  pool s ws cs = record { shared = s; works = ws; clients = cs }

  -- A step of the whole: of one thread, whatever the scheduler picks.
  pub data Step : Pool T → Pool T → Type ℓ where
    work_step :
        (s s' : Shared T) (w w' : Worker T) (xs ys : List (Worker T)) (cs : List (Client T))
        → work s w ≡ some (s', w')
        → Step (pool s (xs ++ w ∷ ys) cs) (pool s' (xs ++ w' ∷ ys) cs)
    spurious_step :
        (s : Shared T) (xs ys : List (Worker T)) (cs : List (Client T))
        → Step (pool s (xs ++ waiting ∷ ys) cs) (pool s (xs ++ woken ∷ ys) cs)
    call_step :
        (s s' : Shared T) (c c' : Client T) (ws : List (Worker T)) (xs ys : List (Client T))
        → call s ws c ≡ some (s', c', no_one)
        → Step (pool s ws (xs ++ c ∷ ys)) (pool s' ws (xs ++ c' ∷ ys))
    notify_step :
        (s s' : Shared T) (c c' : Client T) (us vs : List (Worker T)) (xs ys : List (Client T))
        → call s (us ++ waiting ∷ vs) c ≡ some (s', c', one)
        → Step
            (pool s (us ++ waiting ∷ vs) (xs ++ c ∷ ys))
            (pool s' (us ++ woken ∷ vs) (xs ++ c' ∷ ys))
    unheard_step :
        (s s' : Shared T) (c c' : Client T) (ws : List (Worker T)) (xs ys : List (Client T))
        → call s ws c ≡ some (s', c', one)
        → All Awake ws
        → Step (pool s ws (xs ++ c ∷ ys)) (pool s' ws (xs ++ c' ∷ ys))
    notify_all_step :
        (s s' : Shared T) (c c' : Client T) (ws : List (Worker T)) (xs ys : List (Client T))
        → call s ws c ≡ some (s', c', all)
        → Step (pool s ws (xs ++ c ∷ ys)) (pool s' (map rouse ws) (xs ++ c' ∷ ys))

  -- A client that has not begun its call of `addTask` or `close`.
  pub data Begins : Client T → Type ℓ where
    add_begins : (ts : List T) (everyone : Bool) → Begins (adding ts everyone)
    close_begins : Begins closing

  -- What the constructor makes: `n` is the number of threads, `threadCount` or, for -1, what the
  -- hardware offers.
  unfoldable pub construct : ℕ → List (Client T) → Pool T
  construct n cs =
      pool (record { tasks = []; flag = false; locked = false; given = []; gone = [] })
        (replicate n starting) cs

  -- The pools that `n` workers and calls of any number of clients can come to.
  pub data Reaches (n : ℕ) : Pool T → Type ℓ where
    reach_start : (cs : List (Client T)) → All Begins cs → Reaches n (construct n cs)
    reach_step : {p q : Pool T} → Reaches n p → Step p q → Reaches n q
