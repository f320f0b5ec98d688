-- ===== src/IoManager/Idle.antt =====
-- IOManager::idle: one turn of its loop, together with the timers of the manager. The kernel's answer
-- to epoll_wait is an argument. A null callback that a timer hands out becomes a task with neither
-- fiber nor callback.
pub mod Reports
pub mod Handled
pub mod Turn
pub mod Woken
pub mod Tests
use fiber_async.Prelude.{
  ℕ, List, [], ◌∷◌, ◌++◌, Option, none, some, Bool, if◌then◌else◌, Outcome, ok, ◌>>=◌, ℤ, length,
}
use fiber_async.Timer.{TimerManager, Callback, list_expired_cb, get_next_timer}
use fiber_async.IoManager.{
  Task, run_cb, run_fiber, Posted, IoManager, Ready, process_event, stopping, wait_ms,
}
use fiber_async.IoManager.Interest.{Epoll}

-- One entry of `events`: the reading end of the pipe, which is drained, or a descriptor.
pub data Report : Type 0 where
  pipe : Report
  ready_at : ℕ → Ready → Report

-- What epoll_wait returns: -1 with EINTR, -1 with another errno, or events.
pub data Waited : Type 0 where
  interrupted broken : Waited
  reports : List Report → Waited

pub task_of_cb : Option Callback → Task
task_of_cb none = run_fiber none
task_of_cb (some f) = run_cb f

-- `add_task(cb)` for each callback, on the manager itself, which is the scheduler `self`.
pub post_cbs : ℕ → List (Option Callback) → List Posted
unfolding task_of_cb
post_cbs self [] = []
post_cbs self (cb ∷ cbs) = record { scheduler = self; task = task_of_cb cb } ∷ post_cbs self cbs

module _ (e : Epoll) where
  -- The loop over the events.
  pub handle_reports : IoManager e → List Report → Outcome (IoManager e)
  handle_reports m [] = ok m
  handle_reports m (pipe ∷ rs) = handle_reports m rs
  handle_reports m (ready_at n r ∷ rs) = process_event e m n r >>= λ m'. handle_reports m' rs

  -- How a turn ends: the loop is left, `continue`, or the fiber yields; and what it asked epoll_wait
  -- to wait for at most.
  pub data Turned : Type 0 where
    leaves : IoManager e → TimerManager → Turned
    again : IoManager e → TimerManager → ℤ → Turned
    yields : IoManager e → TimerManager → ℤ → Turned

  -- From the callbacks of the timers on.
  pub serve : IoManager e → TimerManager → ℕ → ℤ → (ℕ → ℕ) → ℕ → List Report → Outcome Turned
  unfolding post_cbs handle_reports
  serve m tm self ms clock mark rs = do
    let (tm', cbs) = list_expired_cb tm clock mark []
    m' ← handle_reports (record m { posted = m.posted ++ post_cbs self cbs }) rs
    ok (yields m' tm' ms)

  -- One turn of the `while` loop. `now` and `clock` are readings of the clock, and `mark` is the
  -- address of listExpiredCb's own timer.
  pub idle_turn : IoManager e → TimerManager → ℕ → Bool → ℕ → Waited → (ℕ → ℕ) → ℕ → Outcome Turned
  unfolding serve
  idle_turn m tm self scheduler_stopping now waited clock mark =
      if stopping e m scheduler_stopping (length tm.timers)
      then ok (leaves m tm)
      else (let (tm', next) = get_next_timer tm now in
          let ms = wait_ms next in
          elim waited [
            | interrupted ↦ ok (again m tm' ms)
            | broken ↦ ok (leaves m tm')
            | reports rs ↦ serve m tm' self ms clock mark rs
          ])
