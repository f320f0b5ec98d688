-- ===== src/Fiber/Orderly.antt =====
-- The fibers of a worker thread: its main fiber is its scheduling fiber too, and only that one resumes
-- others.
use fiber_async.Prelude.{
  ℕ, ◌≡◌, ◌⊎◌, refl, Option, some, none, Bool, true, false, arith, ok, ◌==◌, update, subst,
  Bool-cases, inl, inr,
}
use fiber_async.Fiber.{
  State, ready, running, term, is_ready, is_running, is_term, FiberThread, new_main, new_fiber,
  get_this, reset, resume, yield_fiber, main_func_end, master, swap_context,
}

-- What happens on the thread whose main fiber is `g`. A new fiber is at an address other than that
-- and than that of the fiber whose code executes.
pub data Step (g : ℕ) (t : FiberThread) : FiberThread → Type 0 where
  makes :
      (f : ℕ) (cb : Option ℕ) (stacksize : ℕ) (run_in_scheduler : Bool)
      → (f == g) ≡ false
      → (f == t.flow) ≡ false
      → Step g t (new_fiber t f cb stacksize run_in_scheduler)
  resumes :
      {t' : FiberThread} (f : ℕ)
      → (f == g) ≡ false
      → (t.fibers f).stack ≡ true
      → t.flow ≡ g
      → resume t f ≡ ok t'
      → Step g t t'
  yields :
      {t' : FiberThread} (f : ℕ)
      → (f == g) ≡ false
      → t.flow ≡ f
      → yield_fiber t f ≡ ok t'
      → Step g t t'
  ends :
      {t' : FiberThread} (f : ℕ)
      → (f == g) ≡ false
      → t.flow ≡ f
      → main_func_end t f ≡ ok t'
      → Step g t t'
  resets :
      {t' : FiberThread} (f : ℕ) (cb : Option ℕ)
      → (f == g) ≡ false
      → t.flow ≡ g
      → reset t f cb ≡ ok t'
      → Step g t t'

-- From the first GetThis of the thread on, which makes its main fiber at `g`; `run` then stores it as
-- the scheduling fiber.
pub data Reach (g : ℕ) : FiberThread → Type 0 where
  start :
      (t : FiberThread)
      → t.t_fiber ≡ none
      → ((f : ℕ) → (t.fibers f).stack ≡ false)
      → Reach g (record (get_this (record t { flow = g }) g).0 { t_scheduler_fiber = some g })
  later : {t t' : FiberThread} → Reach g t → Step g t t' → Reach g t'

State-cases : (s : State) → (s ≡ ready) ⊎ ((s ≡ running) ⊎ (s ≡ term))
State-cases ready = inl refl
State-cases running = inr (inl refl)
State-cases term = inr (inr refl)

-- The fiber whose flow executes is the current one; besides the main fiber it is the only one that is
-- RUNNING; and every other that is READY goes on in its own code when it is resumed, and the main
-- fiber in its own when the running one stops.
pub record IsOrderly (g : ℕ) (t : FiberThread) : Type 0 where
  pub main : t.t_thread_fiber ≡ some g
  pub scheduling : t.t_scheduler_fiber ≡ some g
  pub current : t.t_fiber ≡ some t.flow
  pub waiting :
      (f : ℕ)
      → (f == g) ≡ false
      → (f == t.flow) ≡ false
      → (t.fibers f).stack ≡ true
      → (is_running (t.fibers f).state ≡ false)
        × (is_ready (t.fibers f).state ≡ true → t.saved f ≡ f)
  pub executing :
      (t.flow == g) ≡ false
      → (is_running (t.fibers t.flow).state ≡ true)
        × ((t.fibers t.flow).stack ≡ true)
        × (t.saved g ≡ g)

start-IsOrderly :
    (g : ℕ) (t : FiberThread)
    → t.t_fiber ≡ none
    → ((f : ℕ) → (t.fibers f).stack ≡ false)
    → IsOrderly g (record (get_this (record t { flow = g }) g).0 { t_scheduler_fiber = some g })
unfolding get_this new_main
start-IsOrderly g t first empty = record {
  main = ground arith;
  scheduling = refl;
  current = ground arith;
  waiting = λ f apart away stack. ground (arith, empty f);
  executing = λ h. ground arith;
}

pub new_fiber-IsOrderly :
    (g : ℕ) (t : FiberThread) (f : ℕ) (cb : Option ℕ) (stacksize : ℕ) (run_in_scheduler : Bool)
    → (f == g) ≡ false
    → (f == t.flow) ≡ false
    → IsOrderly g t
    → IsOrderly g (new_fiber t f cb stacksize run_in_scheduler)
unfolding new_fiber
new_fiber-IsOrderly g t f cb stacksize run_in_scheduler apart idle v = record {
  main = v.main;
  scheduling = v.scheduling;
  current = v.current;
  waiting = λ h apart' away stack. ground (arith, v.waiting h apart' away);
  executing = λ away. ground (arith, v.executing away);
}

-- Whichever fiber a fiber runs under, it is the main fiber.
pub master_lem :
    (g : ℕ) (t : FiberThread) (f : ℕ)
    → t.t_thread_fiber ≡ some g
    → t.t_scheduler_fiber ≡ some g
    → master t f ≡ ok g
unfolding master
master_lem g t f main scheduling = ground (arith, main, scheduling)

abbrev pub set_running : FiberThread → ℕ → FiberThread
set_running t f = record t {
  fibers = update t.fibers f (record (t.fibers f) { state = running });
  t_fiber = some f;
}

module _ (g : ℕ) (t t' : FiberThread) (f : ℕ) (apart : (f == g) ≡ false) (v : IsOrderly g t) where
  resume_inv :
      resume t f ≡ ok t'
      → (is_ready (t.fibers f).state ≡ true) × (swap_context (set_running t f) g f ≡ t')
  unfolding resume
  resume_inv h = elim (Bool-cases (is_ready (t.fibers f).state)) [
    | inl is ↦ (is, cc (master_lem g (set_running t f) f v.main v.scheduling, rw is at h))
    | inr other ↦ cc (rw other at h)
  ]

  pub resume-IsOrderly :
      (t.fibers f).stack ≡ true → t.flow ≡ g → resume t f ≡ ok t' → IsOrderly g t'
  unfolding swap_context
  resume-IsOrderly stack home h =
      let (is, same) = resume_inv h in
      let begins : t.saved f ≡ f = (v.waiting f apart (rw home apart) stack).1 is in
      subst (IsOrderly g) same (record {
        main = v.main;
        scheduling = v.scheduling;
        current = ground (arith, begins, apart);
        waiting = λ k far away stack'. ground (arith, begins, apart, v.waiting k far);
        executing = λ away. ground (arith, begins, apart, home);
      })

-- Fibers other than `f` and the main fiber.
abbrev pub OthersWait : ℕ → ℕ → FiberThread → Type 0
OthersWait g f t =
    (k : ℕ)
    → (k == g) ≡ false
    → (k == f) ≡ false
    → (t.fibers k).stack ≡ true
    → (is_running (t.fibers k).state ≡ false) × (is_ready (t.fibers k).state ≡ true → t.saved k ≡ k)

abbrev pub left : FiberThread → ℕ → State → FiberThread
left t f st = record t {
  fibers = update t.fibers f (record (t.fibers f) { state = st });
  t_fiber = t.t_thread_fiber;
}

-- A fiber that stops, for now or for good.
module _ (g : ℕ) (t t' : FiberThread) (f : ℕ) (apart : (f == g) ≡ false)
    (main : t.t_thread_fiber ≡ some g) (scheduling : t.t_scheduler_fiber ≡ some g)
    (others : OthersWait g f t) (back : t.saved g ≡ g) (here : t.flow ≡ f) where
  pub left-IsOrderly :
      (st : State) → is_running st ≡ false → IsOrderly g (swap_context (left t f st) f g)
  unfolding swap_context
  left-IsOrderly st stopped = record {
    main = main;
    scheduling = scheduling;
    current = ground (arith, main, back);
    waiting = λ k far away stack'. ground (arith, back, apart, here, others k far);
    executing = λ away. ground (arith, back);
  }

  yield_inv :
      yield_fiber t f ≡ ok t'
      → (st : State) × (is_running st ≡ false) × (swap_context (left t f st) f g ≡ t')
  unfolding yield_fiber
  yield_inv h = elim (State-cases (t.fibers f).state) [
    | inl is ↦ cc (rw is at h)
    | inr (inl is) ↦ (ready, refl, cc (master_lem g (left t f ready) f main scheduling, rw is at h))
    | inr (inr is) ↦ (term, refl, cc (master_lem g (left t f term) f main scheduling, rw is at h))
  ]

  yield-IsOrderly : yield_fiber t f ≡ ok t' → IsOrderly g t'
  yield-IsOrderly h =
      let (st, stopped, same) = yield_inv h in subst (IsOrderly g) same (left-IsOrderly st stopped)

abbrev started_over : FiberThread → ℕ → Option ℕ → FiberThread
started_over t f cb = record t {
  fibers = update t.fibers f (record (t.fibers f) { cb = cb; state = ready });
  saved = update t.saved f f;
}

reset_inv :
    (t t' : FiberThread) (f : ℕ) (cb : Option ℕ) → reset t f cb ≡ ok t' → started_over t f cb ≡ t'
unfolding reset
reset_inv t t' f cb h = elim (Bool-cases (t.fibers f).stack) [
  | inr other ↦ cc (rw other at h)
  | inl own ↦ elim (Bool-cases (is_term (t.fibers f).state)) [
    | inr other ↦ cc (rw (own, other) at h)
    | inl over ↦ cc (rw (own, over) at h)
  ]
]

reset-IsOrderly :
    (g : ℕ) (t t' : FiberThread) (f : ℕ) (cb : Option ℕ)
    → (f == g) ≡ false
    → t.flow ≡ g
    → reset t f cb ≡ ok t'
    → IsOrderly g t
    → IsOrderly g t'
reset-IsOrderly g t t' f cb apart home h v = subst (IsOrderly g) (reset_inv t t' f cb h) (record {
  main = v.main;
  scheduling = v.scheduling;
  current = v.current;
  waiting = λ k far away stack. ground (arith, v.waiting k far);
  executing = λ away. absurd (ground (arith, home));
})

Step-IsOrderly : {g : ℕ} {t t' : FiberThread} → Step g t t' → IsOrderly g t → IsOrderly g t'
unfolding main_func_end
Step-IsOrderly {g} {t} (makes f cb size in_scheduler apart idle) v =
    new_fiber-IsOrderly g t f cb size in_scheduler apart idle v
Step-IsOrderly {g} {t} {t'} (resumes f apart stack home h) v =
    resume-IsOrderly g t t' f apart v stack home h
Step-IsOrderly {g} {t} {t'} (yields f apart here h) v =
    yield-IsOrderly g t t' f apart v.main v.scheduling
      (λ k far away stack. v.waiting k far (rw here away) stack) (v.executing (rw here apart)).2
      here h
Step-IsOrderly {g} {t} {t'} (ends f apart here h) v =
    yield-IsOrderly g
      (record t { fibers = update t.fibers f (record (t.fibers f) { cb = none; state = term }) }) t'
      f apart v.main v.scheduling (λ k far away stack. ground (arith, v.waiting k far, here))
      (v.executing (rw here apart)).2 here h
Step-IsOrderly {g} {t} {t'} (resets f cb apart home h) v =
    reset-IsOrderly g t t' f cb apart home h v

-- On a worker thread where only the main fiber resumes others, whatever fibers are made, resumed,
-- reset, yield and end, in any order: the current fiber is the one whose code executes; of the fibers
-- with a stack, no other is RUNNING; every one of them that is READY goes on in its own code when it
-- is resumed; and if another than the main fiber executes, it is RUNNING and has a stack, and the main
-- fiber goes on in its own code when that one stops.
pub Reach-IsOrderly : {g : ℕ} {t : FiberThread} → Reach g t → IsOrderly g t
Reach-IsOrderly {g} (start t first empty) = start-IsOrderly g t first empty
Reach-IsOrderly (later r st) = Step-IsOrderly st (Reach-IsOrderly r)
