-- ===== src/Scheduler/System.antt =====
-- Any interleaving of `n` threads in `run`, of new tasks, and of `stop`.
use fiber_async.Prelude.{
  ℕ, ◌+◌, ◌≤◌, ◌<◌, ◌≡◌, refl, subst, sym, List, [], ◌∷◌, ◌++◌, none, Bool, true, false, arith, ok,
  Bool-cases, Option-cases, inl, inr, update, >>=-eq-ok, u64_mod,
}
use fiber_async.Scheduler.{
  ScheduleTask, Picked, pick, looping, idling, gone, running, Worker, Scheduler, stopping, add,
  dispatch, turn, finish, idle_round, stop,
}
use fiber_async.Scheduler.Sums.{
  sum_workers, sum_workers-update, sum_workers-eq-zero, sum_workers-le, at_work, is_idling,
}

-- One step, with the tasks that it adds, and those that it hands back: that a thread has run until their
-- fiber ended or yielded.
pub data Step (n : ℕ) (s : Scheduler)
    : List ScheduleTask → List ScheduleTask → Scheduler → Type 0 where
  adds : (t : ScheduleTask) → Step n s (t ∷ []) [] (add s t)
  turns :
      (ready : ℕ → Bool) (i : ℕ) {s' : Scheduler}
      → i < n
      → (s.workers i).place ≡ looping
      → turn ready s i ≡ ok s'
      → Step n s [] [] s'
  finishes :
      (i : ℕ) (t : ScheduleTask)
      → i < n
      → (s.workers i).place ≡ running t
      → Step n s [] (t ∷ []) (finish s i)
  idles : (i : ℕ) → i < n → (s.workers i).place ≡ idling → Step n s [] [] (idle_round s i)
  stops : Step n s [] [] (stop s)

abbrev pub start : Scheduler
start = record {
  queue = [];
  active = 0;
  idle = 0;
  is_stopping = false;
  workers = λ _. record { place = looping; idle_term = false };
}

-- Reached after some steps, with all the tasks that were added and all that were handed back.
pub data Reach (n : ℕ) : List ScheduleTask → List ScheduleTask → Scheduler → Type 0 where
  begin : Reach n [] [] start
  later :
      {added done : List ScheduleTask} {s : Scheduler} {a d : List ScheduleTask} {s' : Scheduler}
      → Reach n added done s
      → Step n s a d s'
      → Reach n (added ++ a) (done ++ d) s'

abbrev pub at_work_of : (ScheduleTask → ℕ) → Worker → ℕ
at_work_of w x = at_work w x.place

abbrev pub busy : Worker → ℕ
busy x = at_work (λ _. 1) x.place

abbrev pub idles_at : Worker → ℕ
idles_at x = is_idling x.place

-- The counters count the threads that run a task and those that idle; a thread whose idle fiber has
-- ended has seen the order to stop, and only such a thread leaves `run`.
pub record IsCounted (n : ℕ) (s : Scheduler) : Type 0 where
  pub active : s.active ≡ sum_workers busy n s.workers
  pub idle : s.idle ≡ sum_workers idles_at n s.workers
  pub ended : (i : ℕ) → (s.workers i).idle_term ≡ true → s.is_stopping ≡ true
  pub left : (i : ℕ) → (s.workers i).place ≡ gone → (s.workers i).idle_term ≡ true

any_task : ScheduleTask
any_task = record { fiber = none; cb = none; thread = none }

busy-le : (x : Worker) → busy x ≤ 1
busy-le x = ground arith

idles_at-le : (x : Worker) → idles_at x ≤ 1
idles_at-le x = ground arith

module _ {n : ℕ} (few : n < u64_mod) where
  -- What changes when one thread's record is replaced.
  replace-IsCounted :
      (s s' : Scheduler) (i : ℕ) (x : Worker)
      → i < n
      → IsCounted n s
      → s'.workers ≡ update s.workers i x
      → s'.active + busy (s.workers i) ≡ s.active + busy x
      → s'.idle + idles_at (s.workers i) ≡ s.idle + idles_at x
      → (x.idle_term ≡ true → s'.is_stopping ≡ true)
      → (x.place ≡ gone → x.idle_term ≡ true)
      → (s.is_stopping ≡ true → s'.is_stopping ≡ true)
      → IsCounted n s'
  replace-IsCounted s s' i x lt v same active idle ended left kept = record {
    active = rw same (omega (arith, v.active, active, sum_workers-update busy n s.workers i x lt));
    idle = rw same (omega (arith, v.idle, idle, sum_workers-update idles_at n s.workers i x lt));
    ended = λ j h. ground (arith, same, v.ended j, h);
    left = λ j h. ground (arith, same, v.left j, h);
  }

  -- A thread that runs no task leaves room in the count for one more.
  room :
      (s : Scheduler) (i : ℕ)
      → i < n
      → busy (s.workers i) ≡ 0
      → IsCounted n s
      → s.active + 1 < u64_mod
  room s i lt free v =
      let x : Worker = record { place = running any_task; idle_term = false } in
      omega (
        arith,
        v.active,
        sum_workers-update busy n s.workers i x lt,
        sum_workers-le busy n (update s.workers i x) busy-le,
      )

  idle_room :
      (s : Scheduler) (i : ℕ)
      → i < n
      → idles_at (s.workers i) ≡ 0
      → IsCounted n s
      → s.idle + 1 < u64_mod
  idle_room s i lt free v =
      let x : Worker = record { place = idling; idle_term = false } in
      omega (
        arith,
        v.idle,
        sum_workers-update idles_at n s.workers i x lt,
        sum_workers-le idles_at n (update s.workers i x) idles_at-le,
      )

  dispatch-IsCounted :
      (s : Scheduler) (i : ℕ) (p : Picked)
      → i < n
      → (s.workers i).place ≡ looping
      → IsCounted n s
      → IsCounted n (dispatch s i p)
  unfolding dispatch
  dispatch-IsCounted s i p lt here v =
      let free : busy (s.workers i) ≡ 0 = ground arith in
      let awake : idles_at (s.workers i) ≡ 0 = ground arith in
      elim (Option-cases p.task) [
        | inr (t, e) ↦
            rw (e, dispatch)
              (replace-IsCounted s _ i (record (s.workers i) { place = running t }) lt v refl
                (omega (arith, room s i lt free v, free)) (omega (arith, awake)) (v.ended i)
                (λ g. cc) (λ h. h))
        | inl e ↦ elim (Bool-cases (s.workers i).idle_term) [
          | inl over ↦
              rw (e, over, dispatch)
                (replace-IsCounted s _ i (record { place = gone; idle_term = true }) lt v refl
                  (omega (arith, free)) (omega (arith, awake)) (λ _. v.ended i over) (λ g. refl)
                  (λ h. h))
          | inr still ↦
              rw (e, still, dispatch)
                (replace-IsCounted s _ i (record { place = idling; idle_term = false }) lt v refl
                  (omega (arith, free)) (omega (arith, idle_room s i lt awake v, awake)) (λ b. cc)
                  (λ g. cc) (λ h. h))
        ]
      ]

  turn-IsCounted :
      (ready : ℕ → Bool) (s : Scheduler) (i : ℕ) {s' : Scheduler}
      → i < n
      → (s.workers i).place ≡ looping
      → turn ready s i ≡ ok s'
      → IsCounted n s
      → IsCounted n s'
  unfolding turn
  turn-IsCounted ready s i {s' = s'} lt here runs v =
      let (p, picked, e) = >>=-eq-ok (pick ready i s.queue) _ runs in
      let same : dispatch s i p ≡ s' = cc in
      subst (IsCounted n) same (dispatch-IsCounted s i p lt here v)

  finish-IsCounted :
      (s : Scheduler) (i : ℕ) (t : ScheduleTask)
      → i < n
      → (s.workers i).place ≡ running t
      → IsCounted n s
      → IsCounted n (finish s i)
  unfolding finish
  finish-IsCounted s i t lt here v =
      let was : busy (s.workers i) ≡ 1 = ground arith in
      let sum =
        sum_workers-update busy n s.workers i (record { place = looping; idle_term = false }) lt in
      replace-IsCounted s _ i (record (s.workers i) { place = looping }) lt v refl
        (omega (arith, was, v.active, sum, few, sum_workers-le busy n s.workers busy-le))
        (ground arith) (v.ended i) (λ g. cc) (λ h. h)

  idle_round-IsCounted :
      (s : Scheduler) (i : ℕ)
      → i < n
      → (s.workers i).place ≡ idling
      → IsCounted n s
      → IsCounted n (idle_round s i)
  unfolding idle_round
  idle_round-IsCounted s i lt here v =
      let was : idles_at (s.workers i) ≡ 1 = ground arith in
      let sum =
        sum_workers-update idles_at n s.workers i (record { place = looping; idle_term = false })
          lt in
      replace-IsCounted s _ i (record { place = looping; idle_term = stopping s }) lt v refl
        (ground arith)
        (omega (arith, was, v.idle, sum, few, sum_workers-le idles_at n s.workers idles_at-le))
        (λ h. ground arith) (λ g. cc) (λ h. h)

  stop-IsCounted : (s : Scheduler) → IsCounted n s → IsCounted n (stop s)
  unfolding stop
  stop-IsCounted s v = elim (Bool-cases (stopping s)) [
    | inl over ↦ rw (over, stop) v
    | inr going ↦
        rw (going, stop)
          (record { active = v.active; idle = v.idle; ended = λ i h. refl; left = v.left })
  ]

  pub Step-IsCounted :
      {s s' : Scheduler} {a d : List ScheduleTask}
      → Step n s a d s'
      → IsCounted n s
      → IsCounted n s'
  unfolding add
  Step-IsCounted (adds t) v = record {
    active = v.active;
    idle = v.idle;
    ended = v.ended;
    left = v.left;
  }
  Step-IsCounted {s} (turns ready i lt here runs) v = turn-IsCounted ready s i lt here runs v
  Step-IsCounted {s} (finishes i t lt here) v = finish-IsCounted s i t lt here v
  Step-IsCounted {s} (idles i lt here) v = idle_round-IsCounted s i lt here v
  Step-IsCounted {s} stops v = stop-IsCounted s v

-- In every state that `n` threads, fewer than 2^64, can reach, the two counters are the numbers of threads that run a
-- task and that idle; a thread has ended its idle fiber only after the order to stop, and has
-- returned from `run` only after that.
pub Reach-IsCounted :
    {n : ℕ} {added done : List ScheduleTask} {s : Scheduler}
    → n < u64_mod
    → Reach n added done s
    → IsCounted n s
Reach-IsCounted {n} few begin = record {
  active = sym (sum_workers-eq-zero busy n _ (λ i. refl));
  idle = sym (sum_workers-eq-zero idles_at n _ (λ i. refl));
  ended = λ i h. cc;
  left = λ i h. cc;
}
Reach-IsCounted few (later r st) = Step-IsCounted few st (Reach-IsCounted few r)
