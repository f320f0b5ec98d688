-- ===== src/Fiber.antt =====
-- include/fiber.hpp and src/fiber.cc: fibers, on one thread. A Fiber* is a number; `fibers` is the
-- heap of these objects. `t_fiber` and `t_thread_fiber` are the thread's own, and so is
-- `t_scheduler_fiber` of src/scheduler.cc, which Scheduler::GetMainFiber() returns. swapcontext saves
-- the flow that executes in the context of its first argument, and continues with the flow saved in
-- its second; `flow` is the fiber whose code executes, and `saved` has each context's flow.
pub mod Switch
pub mod Misuse
pub mod Orderly
pub mod Stints
pub mod Calling
pub mod Tests
use fiber_async.Prelude.{
  ℕ, ◌*◌, Option, some, none, Bool, true, false, not, ◌||◌, if◌then◌else◌, ◌==◌, Outcome, ok, fail,
  Failure, ◌>>=◌, ◌>>◌, qc_assert, is_some, update, add64, sub64,
}

pub data State : Type 0 where
  ready running term : State

abbrev pub is_ready : State → Bool
is_ready ready = true
is_ready running = false
is_ready term = false

abbrev pub is_running : State → Bool
is_running ready = false
is_running running = true
is_running term = false

abbrev pub is_term : State → Bool
is_term ready = false
is_term running = false
is_term term = true

pub record Fiber : Type 0 where
  pub id : ℕ
  pub state : State
  pub stacksize : ℕ
  -- `m_stack` is not null.
  pub stack : Bool
  pub cb : Option ℕ
  pub run_in_scheduler : Bool

pub record FiberThread : Type 0 where
  pub fibers : ℕ → Fiber
  pub t_fiber : Option ℕ
  pub t_thread_fiber : Option ℕ
  pub t_scheduler_fiber : Option ℕ
  pub s_fiber_id : ℕ
  pub s_fiber_count : ℕ
  pub flow : ℕ
  pub saved : ℕ → ℕ

abbrev pub default_stacksize : ℕ
default_stacksize = 128 * 1024

abbrev set_state : FiberThread → ℕ → State → FiberThread
set_state t f st = record t { fibers = update t.fibers f (record (t.fibers f) { state = st }) }

-- Fiber::Fiber(), of the object at `f`. The flow that executes is the thread's own.
pub new_main : FiberThread → ℕ → FiberThread
new_main t f = record t {
  fibers = update t.fibers f (record {
    id = t.s_fiber_id;
    state = running;
    stacksize = 0;
    stack = false;
    cb = none;
    run_in_scheduler = false;
  });
  t_fiber = some f;
  s_fiber_id = add64 t.s_fiber_id 1;
  s_fiber_count = add64 t.s_fiber_count 1;
}

-- Fiber::Fiber(cb, stacksize, run_in_scheduler), of the object at `f`. Its context is made to start
-- in MainFunc.
unfoldable pub new_fiber : FiberThread → ℕ → Option ℕ → ℕ → Bool → FiberThread
new_fiber t f cb stacksize run_in_scheduler = record t {
  fibers = update t.fibers f (record {
    id = t.s_fiber_id;
    state = ready;
    stacksize = if stacksize == 0 then default_stacksize else stacksize;
    stack = true;
    cb = cb;
    run_in_scheduler = run_in_scheduler;
  });
  s_fiber_id = add64 t.s_fiber_id 1;
  s_fiber_count = add64 t.s_fiber_count 1;
  saved = update t.saved f f;
}

-- Fiber::~Fiber.
unfoldable pub destroy : FiberThread → ℕ → Outcome FiberThread
destroy t f =
    let counted = record t { s_fiber_count = sub64 t.s_fiber_count 1 } in
    if (t.fibers f).stack then qc_assert (is_term (t.fibers f).state) >> ok counted else (do
      qc_assert (not (is_some (t.fibers f).cb))
      qc_assert (is_running (t.fibers f).state)
      ok (record counted {
        t_fiber = elim t.t_fiber [ none ↦ none | some c ↦ if c == f then none else some c ];
      }))

-- Fiber::GetThis; `f` is the address of the object that it makes if there is no current fiber.
pub get_this : FiberThread → ℕ → FiberThread × ℕ
unfolding new_main
get_this t f = elim t.t_fiber [
  | some c ↦ (t, c)
  | none ↦ (record (new_main t f) { t_thread_fiber = some f }, f)
]

-- Fiber::reset.
pub reset : FiberThread → ℕ → Option ℕ → Outcome FiberThread
reset t f cb = do
  qc_assert (t.fibers f).stack
  qc_assert (is_term (t.fibers f).state)
  ok (record t {
    fibers = update t.fibers f (record (t.fibers f) { cb = cb; state = ready });
    saved = update t.saved f f;
  })

-- swapcontext(&from->m_ctx, &to->m_ctx).
unfoldable pub swap_context : FiberThread → ℕ → ℕ → FiberThread
swap_context t from to = record t { saved = update t.saved from t.flow; flow = t.saved to }

-- The fiber that `resume` leaves and `yield` returns to; a null one is dereferenced.
unfoldable pub master : FiberThread → ℕ → Outcome ℕ
master t f =
    elim (if (t.fibers f).run_in_scheduler then t.t_scheduler_fiber else t.t_thread_fiber) [
      | none ↦ fail Failure.undefined
      | some g ↦ ok g
    ]

-- Fiber::resume.
unfoldable pub resume : FiberThread → ℕ → Outcome FiberThread
unfolding master swap_context
resume t f = do
  qc_assert (is_ready (t.fibers f).state)
  let t' = record (set_state t f running) { t_fiber = some f }
  g ← master t' f
  ok (swap_context t' g f)

-- Fiber::yield.
unfoldable pub yield_fiber : FiberThread → ℕ → Outcome FiberThread
unfolding master swap_context
yield_fiber t f = do
  qc_assert (is_running (t.fibers f).state || is_term (t.fibers f).state)
  let s = if is_term (t.fibers f).state then term else ready
  let t' = record (set_state t f s) { t_fiber = t.t_thread_fiber }
  g ← master t' f
  ok (swap_context t' f g)

-- Fiber::MainFunc after its callback has returned: the callback is dropped, the state is TERM, and
-- the fiber yields for good.
unfoldable pub main_func_end : FiberThread → ℕ → Outcome FiberThread
unfolding yield_fiber
main_func_end t f =
    yield_fiber
      (record t { fibers = update t.fibers f (record (t.fibers f) { cb = none; state = term }) }) f
