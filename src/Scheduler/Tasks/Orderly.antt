-- ===== src/Scheduler/Tasks/Orderly.antt =====
-- src/scheduler.cc: the thread's fibers before and after a task of `run`.
use fiber_async.Prelude.{
  ℕ, ◌≡◌, Option, some, none, true, false, not, ◌||◌, ◌==◌, Outcome, ok, fail, Failure,
}
use fiber_async.Fiber.{FiberThread, is_ready}
use fiber_async.Fiber.Orderly.{IsOrderly}
use fiber_async.Fiber.Stints.{IsBack}
use fiber_async.Scheduler.{ScheduleTask}
use fiber_async.Scheduler.Tasks.{Stretch}

-- The task's fiber is over or somebody else holds it, and then the call returns a thread whose main
-- fiber executes again, with `kept` in `taskFiber`; or neither, and the program aborts.
pub data Leaves (g f : ℕ) (s : Stretch) (kept : Option ℕ)
    : Outcome (FiberThread × Option ℕ) → Type 0 where
  goes_on :
      {t : FiberThread}
      → (s.ends || not (s.holders == 0)) ≡ true
      → IsBack g f s.ends t
      → Leaves g f s kept (ok (t, kept))
  aborts : s.ends ≡ false → (s.holders == 0) ≡ true → Leaves g f s kept (fail Failure.aborted)

-- What the fiber's code does leaves the fibers orderly, and itself executing.
pub record IsTame (g f : ℕ) (s : Stretch) : Type 0 where
  pub orderly : (a : FiberThread) → IsOrderly g a → a.flow ≡ f → IsOrderly g (s.acts a)
  pub here : (a : FiberThread) → IsOrderly g a → a.flow ≡ f → (s.acts a).flow ≡ f

-- The tasks that `run` picks, with the fiber that each makes it resume: one at `place` for a callback,
-- or the task's own, which is READY.
pub data Resumes (t : FiberThread) (place : ℕ) : ScheduleTask → ℕ → Type 0 where
  callback :
      (cb : ℕ) (thread : Option ℕ)
      → Resumes t place (record { fiber = none; cb = some cb; thread = thread }) place
  own_fiber :
      (f : ℕ) (cb : Option ℕ) (thread : Option ℕ)
      → is_ready (t.fibers f).state ≡ true
      → (t.fibers f).stack ≡ true
      → Resumes t place (record { fiber = some f; cb = cb; thread = thread }) f
