-- ===== src/Scheduler.antt =====
-- include/scheduler.hpp and src/scheduler.cc: the task queue, and the threads that run `run`. A
-- fiber, a callback and a thread are numbers that name them; a worker's thread id is its index. Each
-- step of a worker is atomic where the source holds the scheduler's mutex.
pub mod Pick
pub mod Sums
pub mod System
pub mod Drained
pub mod Tasks
pub mod Pool
pub mod Tests
use fiber_async.Prelude.{
  ℕ, ◌+◌, List, [], ◌∷◌, ◌++◌, Option, some, none, Bool, true, false, not, ◌&&◌, ◌||◌,
  if◌then◌else◌, ◌==◌, Outcome, ok, ◌>>=◌, ◌>>◌, qc_assert, is_some, is_empty, update, sub64, add64,
}

-- `thread` is `none` for -1.
pub record ScheduleTask : Type 0 where
  pub fiber : Option ℕ
  pub cb : Option ℕ
  pub thread : Option ℕ

-- The queue with the new task, and whether `tickle` is called.
pub add_task_nolock : List ScheduleTask → ScheduleTask → List ScheduleTask × Bool
add_task_nolock queue t = (queue ++ t ∷ [], is_empty queue)

-- `!(it->thread != -1 && it->thread != syscall(SYS_gettid))`.
pub is_eligible : ℕ → ScheduleTask → Bool
is_eligible self t = elim t.thread [ none ↦ true | some id ↦ id == self ]

-- The assertions on a task that is picked; `ready` says which fibers are in state READY.
pub check_task : (ℕ → Bool) → ScheduleTask → Outcome (Unit {0})
check_task ready t = do
  qc_assert (is_some t.fiber || is_some t.cb)
  qc_assert (elim t.fiber [ none ↦ true | some f ↦ ready f ])

pub record Picked : Type 0 where
  pub tickle_me : Bool
  pub task : Option ScheduleTask
  pub rest : List ScheduleTask

-- A task that is passed over stays, and sets `tickle_me`.
abbrev passed : ScheduleTask → Picked → Picked
passed t p = record p { tickle_me = true; rest = t ∷ p.rest }

-- The part of `run` under the mutex, on thread `self`.
pub pick : (ℕ → Bool) → ℕ → List ScheduleTask → Outcome Picked
pick ready self [] = ok (record { tickle_me = false; task = none; rest = [] })
pick ready self (t ∷ ts) =
    let later = pick ready self ts >>= λ p. ok (passed t p) in
    if not (is_eligible self t)
    then later
    else (check_task ready t
        >> ok (record { tickle_me = not (is_empty ts); task = some t; rest = ts }))

-- What a thread is doing: at the head of the loop of `run`, running the task that it picked, in its
-- idle fiber, or returned from `run`.
pub data Place : Type 0 where
  looping idling gone : Place
  running : ScheduleTask → Place

pub record Worker : Type 0 where
  pub place : Place
  -- The idle fiber's state is TERM.
  pub idle_term : Bool

pub record Scheduler : Type 0 where
  pub queue : List ScheduleTask
  pub active : ℕ
  pub idle : ℕ
  pub is_stopping : Bool
  pub workers : ℕ → Worker

-- Scheduler::stopping.
pub stopping : Scheduler → Bool
stopping s = s.is_stopping && is_empty s.queue && s.active == 0

abbrev move_to : Scheduler → ℕ → Place → Scheduler
move_to s i p = record s { workers = update s.workers i (record (s.workers i) { place = p }) }

-- add_task.
pub add : Scheduler → ScheduleTask → Scheduler
unfolding add_task_nolock
add s t = record s { queue = (add_task_nolock s.queue t).0 }

-- `run` from the head of the loop of thread `i` to what it does with the task, or without one.
pub dispatch : Scheduler → ℕ → Picked → Scheduler
dispatch s i p = elim p.task [
  | some t ↦ move_to (record s { queue = p.rest; active = add64 s.active 1 }) i (running t)
  | none ↦
      if (s.workers i).idle_term
      then move_to (record s { queue = p.rest }) i gone
      else move_to (record s { queue = p.rest; idle = add64 s.idle 1 }) i idling
]

pub turn : (ℕ → Bool) → Scheduler → ℕ → Outcome Scheduler
turn ready s i = pick ready i s.queue >>= λ p. ok (dispatch s i p)

-- The task's fiber has come back, by its end or by `yield`.
pub finish : Scheduler → ℕ → Scheduler
finish s i = move_to (record s { active = sub64 s.active 1 }) i looping

-- Scheduler::idle from one `yield` to the next, or to its end, and back in `run`.
pub idle_round : Scheduler → ℕ → Scheduler
unfolding stopping
idle_round s i = record s {
  idle = sub64 s.idle 1;
  workers = update s.workers i (record { place = looping; idle_term = stopping s });
}

-- The part of Scheduler::stop that other threads see first.
pub stop : Scheduler → Scheduler
stop s = if stopping s then s else record s { is_stopping = true }
