-- ===== src/Scheduler/Tasks/Caller/Tests.antt =====
-- The thread that made a scheduler, whose root fiber runs a callback.
use fiber_async.Prelude.{
  ℕ, ◌≡◌, refl, ap, subst, Outcome, ok, fail, none, some, Option, true, false, ◌==◌, if◌then◌else◌,
  [], ◌∷◌, List, arith,
}
use fiber_async.Fiber.{
  Fiber, FiberThread, ready, running, is_term, resume, swap_context, master, new_fiber, yield_fiber,
  main_func_end,
}
use fiber_async.Fiber.Calling.Root.{IsCaller}
use fiber_async.Scheduler.{ScheduleTask}
use fiber_async.Scheduler.Tasks.{Stretch, resume_until, let_go, task_fiber_for, run_task}
use fiber_async.Scheduler.Tasks.Caller.{
  Round, works, idles, IsTame, callback, Fits, no_more, then_works, then_idles, resume_root,
  resume_root_lem,
}

abbrev root_fiber : Fiber
root_fiber = record {
  id = 1;
  state = ready;
  stacksize = 131072;
  stack = true;
  cb = some 4;
  run_in_scheduler = false;
}

abbrev no_fiber : Fiber
no_fiber = record {
  id = 0;
  state = running;
  stacksize = 0;
  stack = false;
  cb = none;
  run_in_scheduler = false;
}

-- Fiber 0 is the main fiber, fiber 1 the root fiber.
abbrev resting : FiberThread
resting = record {
  fibers = λ i. if i == 1 then root_fiber else no_fiber;
  t_fiber = some 0;
  t_thread_fiber = some 0;
  t_scheduler_fiber = some 1;
  s_fiber_id = 2;
  s_fiber_count = 2;
  flow = 0;
  saved = λ i. i;
}

resting-IsCaller : IsCaller 0 1 resting
resting-IsCaller = record {
  main = refl;
  scheduling = refl;
  home = refl;
  root_ready = refl;
  root_outside = refl;
  waiting = λ f apart own. ground arith;
}

abbrev returns_at_once : Stretch
returns_at_once = record { acts = λ a. a; ends = true; holders = 0 }

abbrev waits : Stretch
waits = record { acts = λ a. a; ends = false; holders = 1 }

abbrev callback_5 : ScheduleTask
callback_5 = record { fiber = none; cb = some 5; thread = none }

abbrev rounds : List Round
rounds = works callback_5 2 waits ∷ idles 9 returns_at_once ∷ []

always-IsTame : (f : ℕ) → IsTame 0 1 f returns_at_once
always-IsTame f = record { calling = λ b v here. v; here = λ b v here. here }

waits-IsTame : (f : ℕ) → IsTame 0 1 f waits
waits-IsTame f = record { calling = λ b v here. v; here = λ b v here. here }

abbrev from_ok : {A : Type 0} → A → Outcome A → A
from_ok d (ok a) = a
from_ok d (fail e) = d

-- The thread in the root fiber, with the idle fiber; after the callback's yield; and after the idle
-- fiber's end.
begun :
    (a : FiberThread) → resume resting 1 ≡ ok a → Fits 0 1 9 (new_fiber a 9 (some 6) 0 true) rounds
unfolding resume swap_context master new_fiber run_task task_fiber_for resume_until let_go
    yield_fiber main_func_end
begun a h =
    let starts = ap (from_ok resting) h in
    subst (λ t. Fits 0 1 9 (new_fiber t 9 (some 6) 0 true) rounds) starts
      (then_works 2 2 waits callback_5 refl refl (waits-IsTame 2) refl (callback 5 none) (λ b k.
        subst (λ t. Fits 0 1 9 t (idles 9 returns_at_once ∷ []))
          (ap (λ o. (from_ok {A = FiberThread × Option ℕ} (resting, none) o).0) k)
          (then_idles returns_at_once refl refl (always-IsTame 9)
            (record { is_ready = refl; own = refl; inside = refl })
            (λ c l. subst (λ t. Fits 0 1 9 t []) (ap (from_ok resting) l) (no_more refl refl)))))

resume_root_lem_example :
    (t' : FiberThread) × (resume_root resting 1 9 6 rounds ≡ ok t')
    × (t'.flow ≡ 0)
    × (t'.t_fiber ≡ some 0)
    × (is_term (t'.fibers 1).state ≡ true)
resume_root_lem_example =
    resume_root_lem 0 1 9 6 resting rounds refl refl refl resting-IsCaller refl begun
