-- ===== src/Fiber/Calling/Root.antt =====
-- The root fiber's start in Scheduler::stop, and its end.
use fiber_async.Prelude.{ℕ, ◌≡◌, some, none, true, false, arith, ok, ◌==◌, update}
use fiber_async.Fiber.{
  term, FiberThread, is_ready, is_running, is_term, resume, yield_fiber, main_func_end,
  swap_context, master,
}
use fiber_async.Fiber.Orderly.{set_running}
use fiber_async.Fiber.Calling.{IsCalling}

-- The thread before `stop` resumes the root fiber, which the constructor made.
pub record IsCaller (m r : ℕ) (t : FiberThread) : Type 0 where
  pub main : t.t_thread_fiber ≡ some m
  pub scheduling : t.t_scheduler_fiber ≡ some r
  pub home : t.flow ≡ m
  pub root_ready : is_ready (t.fibers r).state ≡ true
  pub root_outside : (t.fibers r).run_in_scheduler ≡ false
  pub waiting :
      (f : ℕ)
      → (f == m) ≡ false
      → (t.fibers f).stack ≡ true
      → (is_running (t.fibers f).state ≡ false)
        × (is_ready (t.fibers f).state ≡ true → t.saved f ≡ f)

module _ (m r : ℕ) (t : FiberThread) (two : (r == m) ≡ false) where
  -- `_rootFiber->resume()` starts the root fiber.
  pub root-IsCalling :
      IsCaller m r t
      → (t.fibers r).stack ≡ true
      → (a : FiberThread) × (resume t r ≡ ok a) × IsCalling m r a × (a.flow ≡ r)
  unfolding resume master swap_context
  root-IsCalling v own =
      let begins : t.saved r ≡ r = (v.waiting r two own).1 v.root_ready in
      (
        swap_context (set_running t r) m r,
        ground (arith, v.root_ready, v.root_outside, v.main),
        record {
          main = v.main;
          scheduling = v.scheduling;
          back = ground (arith, v.home);
          root_runs = ground arith;
          root_outside = ground (arith, v.root_outside);
          waiting = λ k far off away stack. ground (arith, two, begins, v.waiting k far);
          executing = λ away. absurd (ground (arith, begins, two));
        },
        ground (arith, begins, two),
      )

  -- `run` returns in the root fiber, and `resume` in the main fiber.
  pub root_ends :
      IsCalling m r t
      → t.flow ≡ r
      → (t' : FiberThread) × (main_func_end t r ≡ ok t')
        × (t'.flow ≡ m)
        × (t'.t_fiber ≡ some m)
        × (is_term (t'.fibers r).state ≡ true)
  unfolding main_func_end yield_fiber master swap_context
  root_ends v here = (
    swap_context
        (record t {
          fibers =
              update (update t.fibers r (record (t.fibers r) { cb = none; state = term })) r
                (record (t.fibers r) { cb = none; state = term });
          t_fiber = t.t_thread_fiber;
        })
        r m,
    ground (arith, v.root_outside, v.main),
    v.back,
    v.main,
    ground arith,
  )
