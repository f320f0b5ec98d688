-- ===== src/Fiber/Switch.antt =====
-- A resume, and the yield or the end of the fiber that it started.
use fiber_async.Prelude.{ℕ, ◌≡◌, ◌≢◌, refl, Option, none, some, true, arith, ok, update}
use fiber_async.Fiber.{
  ready, running, term, FiberThread, master, swap_context, resume, yield_fiber, main_func_end,
  reset,
}

module _ (t : FiberThread) (f g : ℕ) (is : (t.fibers f).state ≡ ready) (m : master t f ≡ ok g)
    (apart : g ≢ f) where
  abbrev resumed : FiberThread
  resumed = record t {
    fibers = update t.fibers f (record (t.fibers f) { state = running });
    t_fiber = some f;
    saved = update t.saved g t.flow;
    flow = t.saved f;
  }

  resume_runs : resume t f ≡ ok resumed
  unfolding resume master swap_context
  resume_runs = ground (arith, m, is, apart)

  abbrev yielded : FiberThread
  yielded = record t {
    fibers = update resumed.fibers f (record (resumed.fibers f) { state = ready });
    t_fiber = t.t_thread_fiber;
    saved = update resumed.saved f (t.saved f);
    flow = t.flow;
  }

  yield_runs : yield_fiber resumed f ≡ ok yielded
  unfolding yield_fiber master swap_context
  yield_runs = ground (arith, m, is, apart)

  -- A fiber that is READY is resumed in place of its scheduler's or thread's main fiber, which is
  -- another. If it then yields,
  -- the flow that resumed it goes on, it is READY again with its flow saved where it stopped, and the
  -- thread's current fiber is the thread's main fiber, which need not be the one that goes on.
  pub resume-yield :
      (a : FiberThread) × (b : FiberThread) × (resume t f ≡ ok a)
      × (a.flow ≡ t.saved f)
      × ((a.fibers f).state ≡ running)
      × (a.t_fiber ≡ some f)
      × (yield_fiber a f ≡ ok b)
      × (b.flow ≡ t.flow)
      × (b.saved f ≡ t.saved f)
      × ((b.fibers f).state ≡ ready)
      × (b.t_fiber ≡ t.t_thread_fiber)
  resume-yield = (
    resumed,
    yielded,
    resume_runs,
    refl,
    ground arith,
    refl,
    yield_runs,
    refl,
    ground arith,
    ground arith,
    refl,
  )

  abbrev ending : FiberThread
  ending = record resumed {
    fibers = update resumed.fibers f (record (resumed.fibers f) { cb = none; state = term });
  }

  abbrev ended : FiberThread
  ended = record ending {
    fibers = update ending.fibers f (record (ending.fibers f) { state = term });
    t_fiber = t.t_thread_fiber;
    saved = update ending.saved f ending.flow;
    flow = t.flow;
  }

  end_runs : main_func_end resumed f ≡ ok ended
  unfolding main_func_end yield_fiber master swap_context
  end_runs = ground (arith, m, is, apart)

  abbrev again : Option ℕ → FiberThread
  again cb = record ended {
    fibers = update ended.fibers f (record (ended.fibers f) { cb = cb; state = ready });
    saved = update ended.saved f f;
  }

  again_runs : (cb : Option ℕ) → (t.fibers f).stack ≡ true → reset ended f cb ≡ ok (again cb)
  unfolding reset
  again_runs cb own = ground (arith, own)

  -- A fiber that is READY is resumed in place of its scheduler's or
  -- thread's main fiber, which is another. When its callback returns, the flow that resumed it goes on, and the fiber is
  -- TERM and has dropped its callback. If it has a stack it can then be reset: it is READY, with the
  -- new callback, and starts over.
  pub resume-end :
      (a : FiberThread) × (b : FiberThread) × (resume t f ≡ ok a)
      × (main_func_end a f ≡ ok b)
      × (b.flow ≡ t.flow)
      × ((b.fibers f).state ≡ term)
      × ((b.fibers f).cb ≡ none)
      × ((cb : Option ℕ)
          → (t.fibers f).stack ≡ true
          → (c : FiberThread) × (reset b f cb ≡ ok c)
            × ((c.fibers f).state ≡ ready)
            × ((c.fibers f).cb ≡ cb)
            × (c.saved f ≡ f))
  resume-end = (
    resumed,
    ended,
    resume_runs,
    end_runs,
    refl,
    ground arith,
    ground arith,
    λ cb own. (again cb, again_runs cb own, ground arith, ground arith, ground arith),
  )
