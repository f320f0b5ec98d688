-- ===== src/Scheduler/Tasks/Caller.antt =====
-- src/scheduler.cc: `run` in the root fiber, on the thread that made the scheduler, from `stop`'s
-- resume of it to its return there.
pub mod Tests
use fiber_async.Prelude.{
  ℕ, ◌≡◌, inl, inr, refl, List, [], ◌∷◌, Option, some, none, true, false, not, ◌||◌, ◌==◌, arith,
  Outcome, ok, ◌>>=◌, Bool-cases,
}
use fiber_async.Fiber.{FiberThread, is_ready, is_term, new_fiber, resume, main_func_end, destroy}
use fiber_async.Fiber.Calling.{
  IsCalling, IsAtRoot, resume-IsCalling, new_fiber-IsCalling, yield-IsAtRoot, end-IsAtRoot,
  destroy-IsAtRoot,
}
use fiber_async.Fiber.Calling.Root.{IsCaller, root-IsCalling, root_ends}
use fiber_async.Scheduler.{ScheduleTask}
use fiber_async.Scheduler.Tasks.{Stretch, resume_until, let_go, task_fiber_for, run_task}

-- A round of the loop of `run`: a task that it picked, with the place of a fiber to make, or no task,
-- and it resumes the idle fiber.
pub data Round : Type 0 where
  works : ScheduleTask → ℕ → Stretch → Round
  idles : ℕ → Stretch → Round

-- The rounds of `run`, with what is in `taskFiber`.
pub run_rounds : FiberThread → Option ℕ → List Round → Outcome FiberThread
run_rounds t task_fiber [] = ok t
run_rounds t task_fiber (works task place s ∷ rounds) = do
  r ← run_task t task_fiber task place s
  run_rounds r.0 r.1 rounds
run_rounds t task_fiber (idles f s ∷ rounds) = do
  t' ← resume_until t f s
  run_rounds t' task_fiber rounds

-- `_rootFiber->resume()` in `stop`: `run` makes the idle fiber, here at `idle_at`, comes to its end by
-- these rounds, and the idle fiber is destroyed.
pub resume_root : FiberThread → ℕ → ℕ → ℕ → List Round → Outcome FiberThread
unfolding run_rounds
resume_root t r idle_at idle_cb rounds = do
  a ← resume t r
  b ← run_rounds (new_fiber a idle_at (some idle_cb) 0 true) none rounds
  c ← destroy b idle_at
  main_func_end c r

-- What the fiber's code does keeps the thread in order, and itself executing.
pub record IsTame (m r f : ℕ) (s : Stretch) : Type 0 where
  pub calling : (a : FiberThread) → IsCalling m r a → a.flow ≡ f → IsCalling m r (s.acts a)
  pub here : (a : FiberThread) → IsCalling m r a → a.flow ≡ f → (s.acts a).flow ≡ f

-- A READY fiber of the scheduler.
pub record IsResumable (t : FiberThread) (f : ℕ) : Type 0 where
  pub is_ready : is_ready (t.fibers f).state ≡ true
  pub own : (t.fibers f).stack ≡ true
  pub inside : (t.fibers f).run_in_scheduler ≡ true

abbrev one_stint : FiberThread → ℕ → Stretch → Outcome (FiberThread × Option ℕ)
one_stint t f s = do back ← resume_until t f s; after ← let_go back f s.holders; ok (after, none)

module _ (m r f : ℕ) (s : Stretch) (apart : (f == m) ≡ false) (other : (f == r) ≡ false)
    (two : (r == m) ≡ false) (tame : IsTame m r f s) where
  stint :
      (t : FiberThread)
      → IsCalling m r t
      → t.flow ≡ r
      → IsResumable t f
      → (b : FiberThread) × (resume_until t f s ≡ ok b) × IsAtRoot m r f s.ends b
  unfolding resume_until
  stint t v home is =
      let (a, runs, w, here) =
        resume-IsCalling m r f apart other two t v home is.is_ready is.own is.inside in
      let w' = tame.calling a w here in
      let here' = tame.here a w here in
      elim (Bool-cases s.ends) [
        | inl over ↦
            let (b, ended, back) = end-IsAtRoot m r f apart other two (s.acts a) w' here' in
            (b, rw (runs, over, ended), rw over back)
        | inr over ↦
            let (b, yielded, back) = yield-IsAtRoot m r f apart other two (s.acts a) w' here' in
            (b, rw (runs, over, yielded), rw over back)
      ]

  let_go-IsAtRoot :
      (t : FiberThread)
      → (s.ends || not (s.holders == 0)) ≡ true
      → IsAtRoot m r f s.ends t
      → (t' : FiberThread) × (let_go t f s.holders ≡ ok t') × IsAtRoot m r f s.ends t'
  unfolding let_go
  let_go-IsAtRoot t kept b = elim (Bool-cases (s.holders == 0)) [
    | inr held ↦ (t, rw held, b)
    | inl last ↦
        let over : s.ends ≡ true = ground arith in
        let (t', destroyed, b') = destroy-IsAtRoot m r f s.ends t b over in
        (t', rw (last, destroyed), b')
  ]

  task_runs :
      (t : FiberThread)
      → IsCalling m r t
      → t.flow ≡ r
      → (s.ends || not (s.holders == 0)) ≡ true
      → IsResumable t f
      → (t' : FiberThread) × (one_stint t f s ≡ ok (t', none)) × IsAtRoot m r f s.ends t'
  task_runs t v home kept is =
      let (b, runs, back) = stint t v home is in
      let (t', goes, back') = let_go-IsAtRoot b kept back in (t', rw (runs, goes), back')

-- The tasks that `run` picks, with the fiber that each makes it resume: one at `place` for a callback,
-- or the task's own.
pub data Resumes (t : FiberThread) (place : ℕ) : ScheduleTask → ℕ → Type 0 where
  callback :
      (cb : ℕ) (thread : Option ℕ)
      → Resumes t place (record { fiber = none; cb = some cb; thread = thread }) place
  own_fiber :
      (f : ℕ) (cb : Option ℕ) (thread : Option ℕ)
      → IsResumable t f
      → Resumes t place (record { fiber = some f; cb = cb; thread = thread }) f

run_task_runs :
    (m r f place : ℕ) (s : Stretch)
    → (f == m) ≡ false
    → (f == r) ≡ false
    → (r == m) ≡ false
    → IsTame m r f s
    → (t : FiberThread) (task : ScheduleTask) → IsCalling m r t
    → t.flow ≡ r
    → (s.ends || not (s.holders == 0)) ≡ true
    → Resumes t place task f
    → (t' : FiberThread) × (run_task t none task place s ≡ ok (t', none)) × IsAtRoot m r f s.ends t'
unfolding run_task task_fiber_for
run_task_runs m r f place s apart other two tame t task v home kept (callback cb thread) =
    let (w, home', ready, own, inside) =
      new_fiber-IsCalling m r f apart other two t v home (some cb) in
    task_runs m r f s apart other two tame (new_fiber t f (some cb) 0 true) w home' kept
      (record { is_ready = ready; own = own; inside = inside })
run_task_runs m r f place s apart other two tame t task v home kept (own_fiber h cb thread is) =
    task_runs m r f s apart other two tame t v home kept is

-- Rounds that `run` can make from `t` on to its end, with the idle fiber at `i`: each resumes a fiber
-- of the scheduler, other than the main fiber and the root fiber, whose code keeps the thread in
-- order; a task's fiber ends, or somebody else holds it when it yields; and at last the idle fiber is
-- TERM.
pub data Fits (m r i : ℕ) : FiberThread → List Round → Type 0 where
  no_more :
      {t : FiberThread}
      → (t.fibers i).stack ≡ true
      → is_term (t.fibers i).state ≡ true
      → Fits m r i t []
  then_works :
      {t : FiberThread} {rounds : List Round} (f place : ℕ) (s : Stretch) (task : ScheduleTask)
      → (f == m) ≡ false
      → (f == r) ≡ false
      → IsTame m r f s
      → (s.ends || not (s.holders == 0)) ≡ true
      → Resumes t place task f
      → ((t' : FiberThread) → run_task t none task place s ≡ ok (t', none) → Fits m r i t' rounds)
      → Fits m r i t (works task place s ∷ rounds)
  then_idles :
      {t : FiberThread} {rounds : List Round} (s : Stretch)
      → (i == m) ≡ false
      → (i == r) ≡ false
      → IsTame m r i s
      → IsResumable t i
      → ((t' : FiberThread) → resume_until t i s ≡ ok t' → Fits m r i t' rounds)
      → Fits m r i t (idles i s ∷ rounds)

rounds_run :
    (m r i : ℕ) (two : (r == m) ≡ false) {t : FiberThread} {rounds : List Round}
    → Fits m r i t rounds
    → IsCalling m r t
    → t.flow ≡ r
    → (t' : FiberThread) × (run_rounds t none rounds ≡ ok t') × IsAtRoot m r i true t'
unfolding run_rounds
rounds_run m r i two {t} (no_more own done) v home =
    (t, refl, record { calling = v; at_root = home; own = own; is_over = done })
rounds_run m r i two {t} (then_works f place s task apart other tame kept is rest) v home =
    let (t', runs, back) = run_task_runs m r f place s apart other two tame t task v home kept is in
    let (t'', go_on, w) = rounds_run m r i two (rest t' runs) back.calling back.at_root in
    (t'', rw runs go_on, w)
rounds_run m r i two {t} (then_idles s apart other tame is rest) v home =
    let (t', runs, back) = stint m r i s apart other two tame t v home is in
    let (t'', go_on, w) = rounds_run m r i two (rest t' runs) back.calling back.at_root in
    (t'', rw runs go_on, w)

-- On the thread that made the scheduler, whose main fiber executes and whose root fiber, made to run
-- outside of the scheduler, is READY: where `run` comes to its end by rounds that fit, in any number,
-- the resume of the root fiber always returns to the main fiber. That is then the current fiber
-- again, and the root fiber is TERM.
pub resume_root_lem :
    (m r i idle_cb : ℕ) (t : FiberThread) (rounds : List Round)
    → (r == m) ≡ false
    → (i == m) ≡ false
    → (i == r) ≡ false
    → IsCaller m r t
    → (t.fibers r).stack ≡ true
    → ((a : FiberThread)
        → resume t r ≡ ok a
        → Fits m r i (new_fiber a i (some idle_cb) 0 true) rounds)
    → (t' : FiberThread) × (resume_root t r i idle_cb rounds ≡ ok t')
      × (t'.flow ≡ m)
      × (t'.t_fiber ≡ some m)
      × (is_term (t'.fibers r).state ≡ true)
unfolding resume_root
resume_root_lem m r i idle_cb t rounds two apart other v own fits =
    let (a, starts, w, here) = root-IsCalling m r t two v own in
    let (w', here', ready, stacked, inside) =
      new_fiber-IsCalling m r i apart other two a w here (some idle_cb) in
    let (b, runs, back) = rounds_run m r i two (fits a starts) w' here' in
    let (c, gone, back') = destroy-IsAtRoot m r i true b back refl in
    let (t', ends, home, current, done) = root_ends m r c two back'.calling back'.at_root in
    (t', rw (starts, runs, gone, ends), home, current, done)
