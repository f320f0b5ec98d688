-- ===== src/Fiber/Calling.antt =====
-- The fibers of the thread that has made a scheduler and takes part in it: its main fiber, which is in
-- Scheduler::stop, the root fiber, which is in Scheduler::run, and those that the root fiber resumes.
pub mod Root
use fiber_async.Prelude.{
  ℕ, ◌≡◌, refl, Option, some, none, Bool, true, false, arith, ok, fail, Failure, ◌==◌, update,
  sub64,
}
use fiber_async.Fiber.{
  State, ready, term, FiberThread, is_ready, is_running, is_term, new_fiber, destroy, resume,
  yield_fiber, main_func_end, swap_context, master,
}
use fiber_async.Fiber.Orderly.{set_running, left}

-- The main fiber `m` has resumed the root fiber `r`, which executes or has resumed another, made to
-- run in the scheduler; every other that is READY goes on in its own code.
pub record IsCalling (m r : ℕ) (t : FiberThread) : Type 0 where
  pub main : t.t_thread_fiber ≡ some m
  pub scheduling : t.t_scheduler_fiber ≡ some r
  pub back : t.saved m ≡ m
  pub root_runs : is_running (t.fibers r).state ≡ true
  pub root_outside : (t.fibers r).run_in_scheduler ≡ false
  pub waiting :
      (f : ℕ)
      → (f == m) ≡ false
      → (f == r) ≡ false
      → (f == t.flow) ≡ false
      → (t.fibers f).stack ≡ true
      → (is_running (t.fibers f).state ≡ false)
        × (is_ready (t.fibers f).state ≡ true → t.saved f ≡ f)
  pub executing :
      (t.flow == r) ≡ false
      → (is_running (t.fibers t.flow).state ≡ true)
        × ((t.fibers t.flow).stack ≡ true)
        × ((t.fibers t.flow).run_in_scheduler ≡ true)
        × (t.saved r ≡ r)

-- The root fiber executes again, after a stint of `f`.
pub record IsAtRoot (m r f : ℕ) (over : Bool) (t : FiberThread) : Type 0 where
  pub calling : IsCalling m r t
  pub at_root : t.flow ≡ r
  pub own : (t.fibers f).stack ≡ true
  pub is_over : is_term (t.fibers f).state ≡ over

module _ (m r f : ℕ) (apart : (f == m) ≡ false) (other : (f == r) ≡ false)
    (two : (r == m) ≡ false) where
  module _ (t : FiberThread) (v : IsCalling m r t) (here : t.flow ≡ r) where
    abbrev started : FiberThread
    started = swap_context (set_running t f) r f

    -- The root fiber resumes another that is READY.
    pub resume-IsCalling :
        is_ready (t.fibers f).state ≡ true
        → (t.fibers f).stack ≡ true
        → (t.fibers f).run_in_scheduler ≡ true
        → (a : FiberThread) × (resume t f ≡ ok a) × IsCalling m r a × (a.flow ≡ f)
    unfolding resume master swap_context
    resume-IsCalling is own inside =
        let begins : t.saved f ≡ f = (v.waiting f apart other (rw here other) own).1 is in
        (
          started,
          ground (arith, is, inside, v.scheduling),
          record {
            main = v.main;
            scheduling = v.scheduling;
            back = ground (arith, v.back, two);
            root_runs = ground (arith, v.root_runs, other);
            root_outside = ground (arith, v.root_outside, other);
            waiting =
                λ k far off away stack. ground (arith, begins, apart, other, v.waiting k far off);
            executing = λ away. ground (arith, begins, apart, own, inside, here);
          },
          begins,
        )

    -- The root fiber makes another, which is READY.
    pub new_fiber-IsCalling :
        (cb : Option ℕ)
        → let t' = new_fiber t f cb 0 true in
          IsCalling m r t'
          × (t'.flow ≡ r)
          × (is_ready (t'.fibers f).state ≡ true)
          × ((t'.fibers f).stack ≡ true)
          × ((t'.fibers f).run_in_scheduler ≡ true)
    unfolding new_fiber
    new_fiber-IsCalling cb = (
      record {
        main = v.main;
        scheduling = v.scheduling;
        back = ground (arith, v.back, apart);
        root_runs = ground (arith, v.root_runs, other);
        root_outside = ground (arith, v.root_outside, other);
        waiting = λ k far off away stack. ground (arith, v.waiting k far off);
        executing = λ away. absurd (ground (arith, here));
      },
      here,
      ground arith,
      ground arith,
      ground arith,
    )

  module _ (t : FiberThread) (v : IsCalling m r t) (here : t.flow ≡ f) where
    runs :
        (is_running (t.fibers f).state ≡ true)
        × ((t.fibers f).stack ≡ true)
        × ((t.fibers f).run_in_scheduler ≡ true)
        × (t.saved r ≡ r)
    runs = ground (arith, v.executing, here, other)

    stopped : State → FiberThread
    stopped st = swap_context (left t f st) f r

    stopped-IsCalling : (st : State) → is_running st ≡ false → IsCalling m r (stopped st)
    unfolding stopped swap_context
    stopped-IsCalling st rests = record {
      main = v.main;
      scheduling = v.scheduling;
      back = ground (arith, v.back, apart);
      root_runs = ground (arith, v.root_runs, other);
      root_outside = ground (arith, v.root_outside, other);
      waiting = λ k far off away stack. ground (arith, runs, here, rests, v.waiting k far off);
      executing = λ away. absurd (ground (arith, runs));
    }

    stopped-IsAtRoot :
        (st : State) → is_running st ≡ false → IsAtRoot m r f (is_term st) (stopped st)
    unfolding stopped swap_context
    stopped-IsAtRoot st rests = record {
      calling = stopped-IsCalling st rests;
      at_root = runs.3;
      own = ground (arith, runs);
      is_over = ground arith;
    }

    -- The fiber yields.
    pub yield-IsAtRoot : (b : FiberThread) × (yield_fiber t f ≡ ok b) × IsAtRoot m r f false b
    unfolding yield_fiber master stopped
    yield-IsAtRoot =
        (stopped ready, ground (arith, runs, v.scheduling), stopped-IsAtRoot ready refl)

    -- The fiber's callback returns.
    pub end-IsAtRoot : (b : FiberThread) × (main_func_end t f ≡ ok b) × IsAtRoot m r f true b
    unfolding main_func_end yield_fiber master swap_context
    end-IsAtRoot = (
      swap_context
          (record t {
            fibers =
                update (update t.fibers f (record (t.fibers f) { cb = none; state = term })) f
                  (record (t.fibers f) { cb = none; state = term });
            t_fiber = t.t_thread_fiber;
          })
          f r,
      ground (arith, runs, v.scheduling),
      record {
        calling = record {
          main = v.main;
          scheduling = v.scheduling;
          back = ground (arith, v.back, apart);
          root_runs = ground (arith, v.root_runs, other);
          root_outside = ground (arith, v.root_outside, other);
          waiting = λ k far off away stack. ground (arith, runs, here, v.waiting k far off);
          executing = λ away. absurd (ground (arith, runs));
        };
        at_root = runs.3;
        own = ground (arith, runs);
        is_over = ground arith;
      },
    )

module _ (m r f : ℕ) (over : Bool) (t : FiberThread) (b : IsAtRoot m r f over t) where
  abbrev counted : FiberThread
  counted = record t { s_fiber_count = sub64 t.s_fiber_count 1 }

  counted-IsAtRoot : IsAtRoot m r f over counted
  counted-IsAtRoot = record {
    calling = record {
      main = b.calling.main;
      scheduling = b.calling.scheduling;
      back = b.calling.back;
      root_runs = b.calling.root_runs;
      root_outside = b.calling.root_outside;
      waiting = b.calling.waiting;
      executing = b.calling.executing;
    };
    at_root = b.at_root;
    own = b.own;
    is_over = b.is_over;
  }

  -- The fiber that came back is destroyed: that works if its callback has returned, and else aborts.
  pub destroy-IsAtRoot :
      over ≡ true → (t' : FiberThread) × (destroy t f ≡ ok t') × IsAtRoot m r f over t'
  unfolding destroy
  destroy-IsAtRoot h = (counted, ground (arith, b.own, b.is_over, h), counted-IsAtRoot)

  pub destroy_unfinished : over ≡ false → destroy t f ≡ fail Failure.aborted
  unfolding destroy
  destroy_unfinished h = ground (arith, b.own, b.is_over, h)
