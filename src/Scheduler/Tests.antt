-- ===== src/Scheduler/Tests.antt =====
-- Two threads and a task, and the theorems on the scheduler applied to them.
use fiber_async.Prelude.{ℕ, ◌+◌, ◌≡◌, ◌<◌, refl, [], ◌∷◌, none, some, Bool, true, false, ok, arith}
use fiber_async.Scheduler.{
  ScheduleTask, pick, check_task, is_eligible, looping, running, Scheduler, stopping, add, turn,
  dispatch, finish, stop, add_task_nolock,
}
use fiber_async.Scheduler.Sums.{sum_tasks, sum_workers}
use fiber_async.Scheduler.System.{
  start, adds, turns, finishes, stops, Reach, begin, later, at_work_of, busy, IsCounted,
  Reach-IsCounted,
}
use fiber_async.Scheduler.Drained.{tasks_accounted, stopping_means_done}

abbrev anywhere : ScheduleTask
anywhere = record { fiber = none; cb = some 5; thread = none }

abbrev all_ready : ℕ → Bool
all_ready = λ _. true

-- The task is added, thread 0 picks it and completes it, and the order to stop is given.
abbrev one_added : Scheduler
one_added = add start anywhere

abbrev one_running : Scheduler
one_running = dispatch one_added 0 (record { tickle_me = false; task = some anywhere; rest = [] })

abbrev one_done : Scheduler
one_done = finish one_running 0

abbrev ordered : Scheduler
ordered = stop one_done

picks_it : turn all_ready one_added 0 ≡ ok one_running
unfolding turn add add_task_nolock pick is_eligible check_task
picks_it = refl

runs_it : (one_running.workers 0).place ≡ running anywhere
unfolding dispatch
runs_it = refl

is_looping : (one_added.workers 0).place ≡ looping
unfolding add
is_looping = refl

running-Reach : Reach 2 (anywhere ∷ []) [] one_running
running-Reach =
    later (later begin (adds anywhere)) (turns all_ready 0 (omega arith) is_looping picks_it)

ordered-Reach : Reach 2 (anywhere ∷ []) (anywhere ∷ []) ordered
ordered-Reach = later (later running-Reach (finishes 0 anywhere (omega arith) runs_it)) stops

Reach-IsCounted_example : IsCounted 2 one_running
Reach-IsCounted_example = Reach-IsCounted (omega arith) running-Reach

tasks_accounted_example :
    sum_tasks (λ _. 1) (anywhere ∷ [])
    ≡ sum_tasks (λ _. 1) one_running.queue
      + sum_workers (at_work_of (λ _. 1)) 2 one_running.workers
      + sum_tasks (λ _. 1) []
tasks_accounted_example = tasks_accounted running-Reach (λ _. 1)

ordered-stopping : stopping ordered ≡ true
unfolding stopping stop finish dispatch add add_task_nolock
ordered-stopping = refl

stopping_means_done_example :
    (ordered.is_stopping ≡ true)
    × ((w : ScheduleTask → ℕ) → sum_tasks w (anywhere ∷ []) ≡ sum_tasks w (anywhere ∷ []))
    × ((i : ℕ) → i < 2 → busy (ordered.workers i) ≡ 0)
stopping_means_done_example = stopping_means_done (omega arith) ordered-Reach ordered-stopping
