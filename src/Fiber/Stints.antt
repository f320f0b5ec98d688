-- ===== src/Fiber/Stints.antt =====
-- src/fiber.cc: one stint of a fiber on a worker thread, from the main fiber's resume to its return.
use fiber_async.Prelude.{
  ℕ, ◌≡◌, refl, Option, none, Bool, true, false, arith, ok, fail, Failure, ◌==◌, sub64, update,
}
use fiber_async.Fiber.{
  ready, term, FiberThread, is_ready, is_running, is_term, new_fiber, destroy, resume, yield_fiber,
  main_func_end, swap_context,
}
use fiber_async.Fiber.Orderly.{
  IsOrderly, new_fiber-IsOrderly, master_lem, set_running, resume-IsOrderly, left, left-IsOrderly,
}

-- A thread whose main fiber executes again, after a stint of `f`.
pub record IsBack (g : ℕ) (f : ℕ) (over : Bool) (t : FiberThread) : Type 0 where
  pub orderly : IsOrderly g t
  pub home : t.flow ≡ g
  pub own : (t.fibers f).stack ≡ true
  pub is_over : is_term (t.fibers f).state ≡ over

pub flow-new_fiber :
    (t : FiberThread) (f : ℕ) (cb : Option ℕ) (stacksize : ℕ) (run_in_scheduler : Bool)
    → (new_fiber t f cb stacksize run_in_scheduler).flow ≡ t.flow
unfolding new_fiber
flow-new_fiber t f cb stacksize run_in_scheduler = refl

module _ (g : ℕ) (f : ℕ) (apart : (f == g) ≡ false) where
  module _ (t : FiberThread) (v : IsOrderly g t) (home : t.flow ≡ g) where
    abbrev started : FiberThread
    started = swap_context (set_running t f) g f

    resume_runs : is_ready (t.fibers f).state ≡ true → resume t f ≡ ok started
    unfolding resume
    resume_runs is = rw (is, master_lem g (set_running t f) f v.main v.scheduling)

    -- The main fiber resumes another that is READY.
    pub resume_ready :
        is_ready (t.fibers f).state ≡ true
        → (t.fibers f).stack ≡ true
        → (a : FiberThread) × (resume t f ≡ ok a) × IsOrderly g a × (a.flow ≡ f)
    unfolding swap_context
    resume_ready is own = (
      started,
      resume_runs is,
      resume-IsOrderly g t started f apart v own home (resume_runs is),
      (v.waiting f apart (rw home apart) own).1 is,
    )

    -- The main fiber makes another, which is READY.
    pub new_fiber_ready :
        (cb : Option ℕ)
        → let t' = new_fiber t f cb 0 true in
          IsOrderly g t'
          × (t'.flow ≡ g)
          × (is_ready (t'.fibers f).state ≡ true)
          × ((t'.fibers f).stack ≡ true)
    unfolding new_fiber
    new_fiber_ready cb = (
      new_fiber-IsOrderly g t f cb 0 true apart (rw home apart) v,
      home,
      ground arith,
      ground arith,
    )

  module _ (t : FiberThread) (v : IsOrderly g t) (here : t.flow ≡ f) where
    runs : (is_running (t.fibers f).state ≡ true) × ((t.fibers f).stack ≡ true) × (t.saved g ≡ g)
    runs = ground (arith, v.executing, here, apart)

    -- The fiber yields.
    pub yield-IsBack : (b : FiberThread) × (yield_fiber t f ≡ ok b) × IsBack g f false b
    unfolding yield_fiber swap_context
    yield-IsBack = (
      swap_context (left t f ready) f g,
      ground (arith, runs, master_lem g (left t f ready) f v.main v.scheduling),
      record {
        orderly =
            left-IsOrderly g t t f apart v.main v.scheduling
              (λ k far away stack. v.waiting k far (rw here away) stack) runs.2 here ready refl;
        home = runs.2;
        own = ground (arith, runs);
        is_over = ground arith;
      },
    )

    abbrev ending : FiberThread
    ending = record t {
      fibers = update t.fibers f (record (t.fibers f) { cb = none; state = term });
    }

    -- The fiber's callback returns.
    pub end-IsBack : (b : FiberThread) × (main_func_end t f ≡ ok b) × IsBack g f true b
    unfolding main_func_end yield_fiber swap_context
    end-IsBack =
        let t' = ending in
        (
          swap_context (left t' f term) f g,
          ground (arith, master_lem g (left t' f term) f v.main v.scheduling),
          record {
            orderly =
                left-IsOrderly g t' t f apart v.main v.scheduling
                  (λ k far away stack. ground (arith, v.waiting k far, here, away)) runs.2 here term
                  refl;
            home = runs.2;
            own = ground (arith, runs);
            is_over = ground arith;
          },
        )

module _ (g f : ℕ) (over : Bool) (t : FiberThread) (b : IsBack g f over t) where
  abbrev counted : FiberThread
  counted = record t { s_fiber_count = sub64 t.s_fiber_count 1 }

  destroy_over : over ≡ true → destroy t f ≡ ok counted
  unfolding destroy
  destroy_over h = ground (arith, b.own, b.is_over, h)

  counted-IsBack : IsBack g f over counted
  counted-IsBack = record {
    orderly = record {
      main = b.orderly.main;
      scheduling = b.orderly.scheduling;
      current = b.orderly.current;
      waiting = b.orderly.waiting;
      executing = b.orderly.executing;
    };
    home = b.home;
    own = b.own;
    is_over = b.is_over;
  }

  -- The fiber that came back is destroyed, if its callback has returned.
  pub destroy-IsBack : over ≡ true → (t' : FiberThread) × (destroy t f ≡ ok t') × IsBack g f over t'
  destroy-IsBack h = (counted, destroy_over h, counted-IsBack)

  -- The program aborts when the fiber that came back is destroyed and its callback has not returned.
  pub destroy_aborts : over ≡ false → destroy t f ≡ fail Failure.aborted
  unfolding destroy
  destroy_aborts h = ground (arith, b.own, b.is_over, h)
