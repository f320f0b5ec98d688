-- ===== src/Scheduler/Tasks.antt =====
-- src/scheduler.cc: what `run` does with the task that it picked, on a worker thread: the fiber that
-- it resumes, and the Fiber::ptr that it lets go.
pub mod Orderly
pub mod Caller
pub mod Tests
use fiber_async.Prelude.{ℕ, Option, some, none, Bool, true, if◌then◌else◌, ◌==◌, Outcome, ok, ◌>>=◌}
use fiber_async.Fiber.{FiberThread, new_fiber, destroy, reset, resume, yield_fiber, main_func_end}
use fiber_async.Scheduler.{ScheduleTask}

-- A fiber's code from its start, or from where it goes on, to where `resume` returns: what it does to
-- the thread, whether the callback returns or the fiber yields, and how many Fiber::ptr's to the
-- fiber there are then besides the one in `run`, those on its own stack included.
pub record Stretch : Type 0 where
  pub acts : FiberThread → FiberThread
  pub ends : Bool
  pub holders : ℕ

-- `f->resume()` of the fiber at `f`.
pub resume_until : FiberThread → ℕ → Stretch → Outcome FiberThread
resume_until t f s = do
  a ← resume t f
  if s.ends then main_func_end (s.acts a) f else yield_fiber (s.acts a) f

-- A Fiber::ptr to `f` is reset, where `holders` others are left.
pub let_go : FiberThread → ℕ → ℕ → Outcome FiberThread
let_go t f holders = if holders == 0 then destroy t f else ok t

-- The fiber in `taskFiber` for the callback: the old one, or a new one at `f`.
pub task_fiber_for : FiberThread → Option ℕ → ℕ → ℕ → Outcome (FiberThread × ℕ)
task_fiber_for t task_fiber f cb = elim task_fiber [
  | some h ↦ reset t h (some cb) >>= λ t'. ok (t', h)
  | none ↦ ok (new_fiber t f (some cb) 0 true, f)
]

-- `run` on the task that it picked; `f` is the address of the fiber that it makes, if it makes one.
-- The result has `taskFiber` too. Without a task nothing is done here: `idle_round` is what the idle
-- fiber does.
pub run_task :
    FiberThread → Option ℕ → ScheduleTask → ℕ → Stretch → Outcome (FiberThread × Option ℕ)
unfolding task_fiber_for resume_until let_go
run_task t task_fiber task f s = elim task.fiber [
  | some h ↦ do back ← resume_until t h s; after ← let_go back h s.holders; ok (after, task_fiber)
  | none ↦ elim task.cb [
    | none ↦ ok (t, task_fiber)
    | some cb ↦ do
      made ← task_fiber_for t task_fiber f cb
      back ← resume_until made.0 made.1 s
      after ← let_go back made.1 s.holders
      ok (after, none)
  ]
]
