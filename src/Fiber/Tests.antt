-- ===== src/Fiber/Tests.antt =====
-- A concrete thread with a fiber, and the theorems on fibers applied to it.
use fiber_async.Prelude.{◌≡◌, refl, none, some, Bool, true, false, ◌==◌, update, ok, arith}
use fiber_async.Fiber.{
  Fiber, get_this, new_fiber, new_main, swap_context, ready, running, term, FiberThread, resume,
  yield_fiber, master,
}
use fiber_async.Fiber.Switch.{resume-yield}
use fiber_async.Fiber.Orderly.{Reach, start, later, makes, resumes, IsOrderly, Reach-IsOrderly}

-- On a caller's thread: fiber 0 is the thread's own, fiber 1 the scheduler's, fiber 2 a task's.
abbrev caller_thread : FiberThread
caller_thread = record {
  fibers = λ _. record {
    id = 0;
    state = ready;
    stacksize = 131072;
    stack = true;
    cb = some 5;
    run_in_scheduler = true;
  };
  t_fiber = some 1;
  t_thread_fiber = some 0;
  t_scheduler_fiber = some 1;
  s_fiber_id = 3;
  s_fiber_count = 3;
  flow = 1;
  saved = λ i. i;
}

main_of_task : master caller_thread 2 ≡ ok 1
unfolding master
main_of_task = refl

resume-yield_example :
    (a : FiberThread) × (b : FiberThread) × (resume caller_thread 2 ≡ ok a)
    × (a.flow ≡ 2)
    × ((a.fibers 2).state ≡ running)
    × (a.t_fiber ≡ some 2)
    × (yield_fiber a 2 ≡ ok b)
    × (b.flow ≡ 1)
    × (b.saved 2 ≡ 2)
    × ((b.fibers 2).state ≡ ready)
    × (b.t_fiber ≡ caller_thread.t_thread_fiber)
resume-yield_example = resume-yield caller_thread 2 1 refl main_of_task (omega arith)

-- A worker thread: fiber 0 is its main fiber; fiber 2 is made and resumed.
abbrev blank_fiber : Fiber
blank_fiber = record {
  id = 0;
  state = term;
  stacksize = 0;
  stack = false;
  cb = none;
  run_in_scheduler = false;
}

abbrev bare_thread : FiberThread
bare_thread = record {
  fibers = λ _. blank_fiber;
  t_fiber = none;
  t_thread_fiber = none;
  t_scheduler_fiber = none;
  s_fiber_id = 0;
  s_fiber_count = 0;
  flow = 0;
  saved = λ i. i;
}

abbrev pub with_main : FiberThread
with_main = record (get_this bare_thread 0).0 { t_scheduler_fiber = some 0 }

abbrev with_task : FiberThread
with_task = new_fiber with_main 2 (some 5) 0 true

abbrev task_runs : FiberThread
task_runs = record with_task {
  fibers = update with_task.fibers 2 (record (with_task.fibers 2) { state = running });
  t_fiber = some 2;
  saved = update with_task.saved 0 with_task.flow;
  flow = 2;
}

has_stack : (with_task.fibers 2).stack ≡ true
unfolding new_fiber
has_stack = refl

at_home : with_task.flow ≡ 0
unfolding new_fiber get_this new_main
at_home = refl

is_resumed : resume with_task 2 ≡ ok task_runs
unfolding resume master swap_context new_fiber get_this new_main
is_resumed = refl

idle_address : ◌≡◌ {A = Bool} (2 == with_main.flow) false
unfolding get_this new_main
idle_address = refl

task_runs-Reach : Reach 0 task_runs
task_runs-Reach =
    later (later (start bare_thread refl (λ f. refl)) (makes 2 (some 5) 0 true refl idle_address))
      (resumes 2 refl has_stack at_home is_resumed)

Reach-IsOrderly_example : IsOrderly 0 task_runs
Reach-IsOrderly_example = Reach-IsOrderly task_runs-Reach

-- The worker thread before it makes a fiber.
pub with_main-IsOrderly : IsOrderly 0 with_main
with_main-IsOrderly = Reach-IsOrderly (start bare_thread refl (λ f. refl))

pub with_main-flow : with_main.flow ≡ 0
unfolding get_this new_main
with_main-flow = refl
